-- ===== src/Sessions/Single.antt =====
-- One active session of a user on a platform, and a cache without dead tokens
-- (app/services/session_manager.py).
use fleet_manager.Prelude.{
  ℕ, ◌≡◌, refl, sym, ◌∙◌, ap, subst, Bool, true, false, not, Option, none, some, List, [], ◌∷◌,
  arith, ◌==◌, if◌then◌else◌, filter, Elem, here, there, Elem-cons, Elem-filter, Elem-filter_of,
  Bool-cases, inl, inr, ◌⊎◌,
}
use fleet_manager.Store.{Text, UserType}
use fleet_manager.Sessions.{
  DeviceSession, CachedToken, SessionTables, rank_user, rank_platform, signed_out, deactivate,
  is_token_of, set_token, invalidate_users, sign_out, cached, touched,
}

-- Both sessions are active, of one user on one platform.
abbrev pub Rivals : DeviceSession → DeviceSession → Type 0
Rivals a b =
    (a.is_active ≡ true)
    × (b.is_active ≡ true)
    × (rank_user a.user_type ≡ rank_user b.user_type)
    × (a.user_id ≡ b.user_id)
    × (rank_platform a.platform ≡ rank_platform b.platform)

-- The session that a cached token is for.
abbrev pub IsFor : DeviceSession → CachedToken → Type 0
IsFor s c =
    (s.is_active ≡ true)
    × (rank_user s.user_type ≡ rank_user c.user_type)
    × (s.user_id ≡ c.user_id)
    × (s.fcm_token ≡ some c.token)

-- Session ids are keys, no two sessions are rivals, and one that is not active has no token.
pub record AreSound (rows : List DeviceSession) : Type 0 where
  pub keyed :
      (a b : DeviceSession) → Elem a rows → Elem b rows → a.session_id ≡ b.session_id → a ≡ b
  pub single : (a b : DeviceSession) → Elem a rows → Elem b rows → Rivals a b → a ≡ b
  pub cleared : (s : DeviceSession) → Elem s rows → s.is_active ≡ false → s.fcm_token ≡ none

-- Each cached token is that of an active session of its user.
abbrev pub IsLive : SessionTables → Type 0
IsLive tables =
    (c : CachedToken) → Elem c tables.tokens → (s : DeviceSession) × Elem s tables.rows × IsFor s c

abbrev pub IsSound : SessionTables → Type 0
IsSound tables = AreSound tables.rows × IsLive tables

module _ (p : DeviceSession → Bool) (now : ℕ) where
  abbrev pub left : DeviceSession → DeviceSession
  left s = if p s then signed_out now s else s

  pub left_cases :
      (s : DeviceSession) → ((left s ≡ s) × (p s ≡ false)) ⊎ (left s ≡ signed_out now s)
  left_cases s = elim (Bool-cases (p s)) [ inl t ↦ inr (rw t refl) | inr f ↦ inl (rw f refl, f) ]

  pub left_id : (s : DeviceSession) → (left s).session_id ≡ s.session_id
  left_id s = elim (left_cases s) [
    | inl (e, _) ↦ ap (λ (y : DeviceSession). y.session_id) e
    | inr e ↦ ap (λ (y : DeviceSession). y.session_id) e
  ]

  pub deactivate-from :
      (rows : List DeviceSession) (s' : DeviceSession)
      → Elem s' (deactivate p now rows)
      → (s : DeviceSession) × Elem s rows × (s' ≡ left s)
  deactivate-from (x ∷ xs) s' m = elim (Elem-cons m) [
    | inl e ↦ (x, here, e)
    | inr m' ↦ let (s, ms, h) = deactivate-from xs s' m' in (s, there ms, h)
  ]
  deactivate-from [] s' m = elim m [ ]

  pub deactivate-kept :
      (rows : List DeviceSession) (s : DeviceSession)
      → Elem s rows
      → p s ≡ false
      → Elem s (deactivate p now rows)
  deactivate-kept (x ∷ xs) s here f = rw f here
  deactivate-kept (x ∷ xs) s (there m) f = there (deactivate-kept xs s m f)
  deactivate-kept [] s m f = elim m [ ]

  -- An active row after it was there before.
  pub deactivate-active :
      (rows : List DeviceSession) (s' : DeviceSession)
      → Elem s' (deactivate p now rows)
      → s'.is_active ≡ true
      → Elem s' rows × (p s' ≡ false)
  deactivate-active rows s' m active =
      let (s, ms, h) = deactivate-from rows s' m in
      elim (left_cases s) [
        | inl (e, f) ↦
            (subst (λ y. Elem y rows) (sym (h ∙ e)) ms, subst (λ y. p y ≡ false) (sym (h ∙ e)) f)
        | inr e ↦ absurd (let off = ap (λ (y : DeviceSession). y.is_active) (h ∙ e) in cc)
      ]

pub deactivate-AreSound :
    (p : DeviceSession → Bool) (now : ℕ) (rows : List DeviceSession)
    → AreSound rows
    → AreSound (deactivate p now rows)
deactivate-AreSound p now rows sound = record {
  keyed = λ a b ma mb e.
      let (x, mx, hx) = deactivate-from p now rows a ma in
      let (y, my, hy) = deactivate-from p now rows b mb in
      let same : x ≡ y = sound.keyed x y mx my (
        sym (left_id p now x)
        ∙ ap (λ (z : DeviceSession). z.session_id) (sym hx)
        ∙ e
        ∙ ap (λ (z : DeviceSession). z.session_id) hy
        ∙ left_id p now y) in
      hx ∙ ap (left p now) same ∙ sym hy;
  single = λ a b ma mb r.
      sound.single a b (deactivate-active p now rows a ma r.0).0
        (deactivate-active p now rows b mb r.1).0 r;
  cleared = λ s ms off.
      let (x, mx, hx) = deactivate-from p now rows s ms in
      elim (left_cases p now x) [
        | inl (e, _) ↦ sound.cleared s (subst (λ y. Elem y rows) (sym (hx ∙ e)) mx) off
        | inr e ↦ ap (λ (y : DeviceSession). y.fcm_token) (hx ∙ e)
      ];
}

invalidate_users-Elem :
    (ss : List DeviceSession) (tokens : List CachedToken) (c : CachedToken)
    → Elem c (invalidate_users ss tokens)
    → Elem c tokens
      × ((s : DeviceSession) → Elem s ss → is_token_of s.user_type s.user_id c ≡ false)
invalidate_users-Elem [] tokens c m = (m, λ s ms. elim ms [ ])
invalidate_users-Elem (x ∷ xs) tokens c m =
    let (m', t) =
      Elem-filter (λ c. not (is_token_of x.user_type x.user_id c)) (invalidate_users xs tokens) m in
    let (old, others) = invalidate_users-Elem xs tokens c m' in
    (
      old,
      λ s ms. elim (Elem-cons ms) [
        | inl e ↦
            subst (λ (y : DeviceSession). is_token_of y.user_type y.user_id c ≡ false) (sym e)
              (ground arith)
        | inr ms' ↦ others s ms'
      ],
    )

pub IsFor-is_token_of :
    (s : DeviceSession) (c : CachedToken) → IsFor s c → is_token_of s.user_type s.user_id c ≡ true
IsFor-is_token_of s c (active, t, u, token) = ground arith

-- Signing out any sessions.
pub sign_out-IsSound :
    (p : DeviceSession → Bool) (now : ℕ) (tables : SessionTables)
    → IsSound tables
    → IsSound (sign_out p now tables)
sign_out-IsSound p now tables (rows, live) = (
  deactivate-AreSound p now tables.rows rows,
  λ c m.
      let (old, others) = invalidate_users-Elem (filter p tables.rows) tables.tokens c m in
      let (s, ms, for) = live c old in
      elim (Bool-cases (p s)) [
        | inl t ↦
            let o = others s (Elem-filter_of p tables.rows ms t) in
            let y = IsFor-is_token_of s c for in absurd (ground arith)
        | inr f ↦ (s, deactivate-kept p now tables.rows s ms f, for)
      ],
)

pub set_token-IsLive :
    (rows : List DeviceSession) (tokens : List CachedToken) (user_type : UserType) (user_id : ℕ)
    (o : Option Text)
    → IsLive (record { rows = rows; tokens = tokens })
    → ((t : Text)
        → o ≡ some t
        → (s : DeviceSession) × Elem s rows
          × IsFor s (record { user_type = user_type; user_id = user_id; token = t }))
    → IsLive (record { rows = rows; tokens = set_token user_type user_id o tokens })
set_token-IsLive rows tokens user_type user_id none live of c m = live c m
set_token-IsLive rows tokens user_type user_id (some t) live of c m = elim (Elem-cons m) [
  | inl e ↦ let (s, ms, for) = of t refl in (s, ms, subst (λ d. IsFor s d) (sym e) for)
  | inr m' ↦ live c (Elem-filter (λ c. not (is_token_of user_type user_id c)) tokens m').0
]

-- A row with a token is active.
token-active :
    (rows : List DeviceSession) (s : DeviceSession) (t : Text)
    → AreSound rows
    → Elem s rows
    → s.fcm_token ≡ some t
    → s.is_active ≡ true
token-active rows s t sound m e = elim (Bool-cases s.is_active) [
  | inl active ↦ active
  | inr off ↦ absurd (let gone = sound.cleared s m off in cc)
]

-- What a lookup caches is live, since it is of a row.
pub cached-IsLive :
    (tables : SessionTables) (found : Option DeviceSession)
    → ((s : DeviceSession) → found ≡ some s → Elem s tables.rows)
    → IsSound tables
    → IsLive (record { rows = tables.rows; tokens = cached found tables.tokens })
cached-IsLive tables none there_is sound c m = sound.1 c m
cached-IsLive tables (some s) there_is sound c m =
    let ms = there_is s refl in
    set_token-IsLive tables.rows tables.tokens s.user_type s.user_id s.fcm_token sound.1
      (λ t e. (s, ms, (token-active tables.rows s t sound.0 ms e, refl, refl, e))) c m

-- A new time of activity in a row.
pub touched-from :
    (session_id now : ℕ) (rows : List DeviceSession) (s' : DeviceSession)
    → Elem s' (touched session_id now rows)
    → (s : DeviceSession) × Elem s rows
      × (s' ≡ (if s.session_id == session_id then record s { last_activity_at = now } else s))
touched-from session_id now (x ∷ xs) s' m = elim (Elem-cons m) [
  | inl e ↦ (x, here, e)
  | inr m' ↦ let (s, ms, h) = touched-from session_id now xs s' m' in (s, there ms, h)
]
touched-from session_id now [] s' m = elim m [ ]
