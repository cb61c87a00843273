-- ===== src/Sessions/Registered.antt =====
-- Signing in, and the activity of a session (`register_session` and `update_last_activity` in
-- app/services/session_manager.py).
use fleet_manager.Prelude.{
  ℕ, ◌≡◌, ◌≢◌, ◌<◌, refl, sym, ◌∙◌, ap, subst, true, false, not, Option, none, some, List, [], ◌∷◌,
  ◌++◌, arith, ◌==◌, ltb, if◌then◌else◌, length, find?, find?-true, find?-none, Elem, here, there,
  Elem-cons, Elem-append, Elem-append_left, Elem-append_right, Elem-filter, Bool-cases, inl, inr,
}
use fleet_manager.Prelude.Result.{ok, raise_if-eq-ok, ok_injective}
use fleet_manager.Sessions.{
  DeviceSession, SessionTables, SignIn, SessionError, rank_user, rank_platform, is_current,
  is_token_of, set_token, next_session_id, replaced, new_session, register_session, touched,
  update_last_activity,
}
use fleet_manager.Sessions.Single.{
  Rivals, IsFor, AreSound, IsLive, IsSound, left_id, deactivate-from, deactivate-kept,
  deactivate-active, deactivate-AreSound, IsFor-is_token_of, set_token-IsLive, cached-IsLive,
  touched-from,
}

abbrev touch : ℕ → ℕ → DeviceSession → DeviceSession
touch session_id now s =
    if s.session_id == session_id then record s { last_activity_at = now } else s

record SameSession (a b : DeviceSession) : Type 0 where
  same_id : a.session_id ≡ b.session_id
  same_type : a.user_type ≡ b.user_type
  same_user : a.user_id ≡ b.user_id
  same_platform : a.platform ≡ b.platform
  same_token : a.fcm_token ≡ b.fcm_token
  same_state : a.is_active ≡ b.is_active

touch-SameSession :
    (session_id now : ℕ) (s : DeviceSession) → SameSession (touch session_id now s) s
touch-SameSession session_id now s = elim (Bool-cases (s.session_id == session_id)) [
  | inl t ↦ rw t (record {
    same_id = refl;
    same_type = refl;
    same_user = refl;
    same_platform = refl;
    same_token = refl;
    same_state = refl;
  })
  | inr f ↦ rw f (record {
    same_id = refl;
    same_type = refl;
    same_user = refl;
    same_platform = refl;
    same_token = refl;
    same_state = refl;
  })
]

touched-kept :
    (session_id now : ℕ) (rows : List DeviceSession) (s : DeviceSession)
    → Elem s rows
    → Elem (touch session_id now s) (touched session_id now rows)
touched-kept session_id now (x ∷ xs) s here = here
touched-kept session_id now (x ∷ xs) s (there m) = there (touched-kept session_id now xs s m)
touched-kept session_id now [] s m = elim m [ ]

Rivals-SameSession :
    (a b x y : DeviceSession) → SameSession a x → SameSession b y → Rivals a b → Rivals x y
Rivals-SameSession a b x y p q (aa, ab, t, u, f) = (
  sym p.same_state ∙ aa,
  sym q.same_state ∙ ab,
  ap rank_user (sym p.same_type) ∙ t ∙ ap rank_user q.same_type,
  sym p.same_user ∙ u ∙ q.same_user,
  ap rank_platform (sym p.same_platform) ∙ f ∙ ap rank_platform q.same_platform,
)

touched-AreSound :
    (session_id now : ℕ) (rows : List DeviceSession)
    → AreSound rows
    → AreSound (touched session_id now rows)
touched-AreSound session_id now rows sound =
    let f = touch session_id now in
    record {
      keyed = λ a b ma mb e.
          let (x, mx, hx) = touched-from session_id now rows a ma in
          let (y, my, hy) = touched-from session_id now rows b mb in
          let ids =
            sym (touch-SameSession session_id now x).same_id
            ∙ ap (λ (z : DeviceSession). z.session_id) (sym hx)
            ∙ e
            ∙ ap (λ (z : DeviceSession). z.session_id) hy
            ∙ (touch-SameSession session_id now y).same_id in
          hx ∙ ap f (sound.keyed x y mx my ids) ∙ sym hy;
      single = λ a b ma mb r.
          let (x, mx, hx) = touched-from session_id now rows a ma in
          let (y, my, hy) = touched-from session_id now rows b mb in
          let p = subst (λ z. SameSession z x) (sym hx) (touch-SameSession session_id now x) in
          let q = subst (λ z. SameSession z y) (sym hy) (touch-SameSession session_id now y) in
          hx ∙ ap f (sound.single x y mx my (Rivals-SameSession a b x y p q r)) ∙ sym hy;
      cleared = λ s ms off.
          let (x, mx, hx) = touched-from session_id now rows s ms in
          let p = subst (λ z. SameSession z x) (sym hx) (touch-SameSession session_id now x) in
          p.same_token ∙ sound.cleared x mx (sym p.same_state ∙ off);
    }

pub update_last_activity-IsSound :
    (tables : SessionTables) (session_id now : ℕ)
    → IsSound tables
    → IsSound (update_last_activity tables session_id now)
unfolding update_last_activity
update_last_activity-IsSound tables session_id now sound = (
  touched-AreSound session_id now tables.rows sound.0,
  λ c m.
      let found = find? (λ (s : DeviceSession). s.session_id == session_id) tables.rows in
      let (s, ms, (active, t, u, token)) =
        cached-IsLive tables found
          (λ s e. (find?-true (λ (s : DeviceSession). s.session_id == session_id) tables.rows e).1)
          sound c m in
      let p = touch-SameSession session_id now s in
      (
        touch session_id now s,
        touched-kept session_id now tables.rows s ms,
        (
          p.same_state ∙ active,
          ap rank_user p.same_type ∙ t,
          p.same_user ∙ u,
          p.same_token ∙ token,
        ),
      ),
)

-- Nobody else is signed in as this user on this platform.
abbrev IsFree : List DeviceSession → SignIn → Type 0
IsFree rows r =
    (s : DeviceSession) → Elem s rows → is_current r.user_type r.user_id r.platform s ≡ false

replaced-IsSound :
    (tables : SessionTables) (r : SignIn) (now : ℕ) (old : Option DeviceSession)
    → find? (is_current r.user_type r.user_id r.platform) tables.rows ≡ old
    → IsSound tables
    → IsSound (replaced old now tables) × IsFree (replaced old now tables).rows r
replaced-IsSound tables r now none h sound =
    (sound, λ s m. find?-none (is_current r.user_type r.user_id r.platform) tables.rows h m)
replaced-IsSound tables r now (some old) h sound =
    let is_old = λ (s : DeviceSession). s.session_id == old.session_id in
    let (co, mo) = find?-true (is_current r.user_type r.user_id r.platform) tables.rows h in
    (
      (
        deactivate-AreSound is_old now tables.rows sound.0,
        λ c m.
            let (mc, other) =
              Elem-filter (λ c. not (is_token_of old.user_type old.user_id c)) tables.tokens m in
            let (s, ms, for) = sound.1 c mc in
            elim (Bool-cases (is_old s)) [
              | inl t ↦
                  let same : s ≡ old = sound.0.keyed s old ms mo (ground arith) in
                  let y = IsFor-is_token_of old c (subst (λ z. IsFor z c) same for) in
                  absurd (ground arith)
              | inr f ↦ (s, deactivate-kept is_old now tables.rows s ms f, for)
            ],
      ),
      λ s m. elim (Bool-cases (is_current r.user_type r.user_id r.platform s)) [
        | inr f ↦ f
        | inl cs ↦
            let active : s.is_active ≡ true = ground arith in
            let (ms, kept) = deactivate-active is_old now tables.rows s m active in
            let rivals : Rivals s old =
              (active, ground arith, ground arith, ground arith, ground arith) in
            let same = sound.0.single s old ms mo rivals in
            let id = ap (λ (z : DeviceSession). z.session_id) same in absurd (ground arith)
      ],
    )

next_session_id-lt :
    (s : DeviceSession) (rows : List DeviceSession)
    → Elem s rows
    → s.session_id < next_session_id rows
next_session_id-lt s (x ∷ xs) here = ground arith
next_session_id-lt s (x ∷ xs) (there m) = let h = next_session_id-lt s xs m in ground arith
next_session_id-lt s [] m = elim m [ ]

replaced-id :
    (tables : SessionTables) (now : ℕ) (old : Option DeviceSession) (s : DeviceSession)
    → Elem s (replaced old now tables).rows
    → s.session_id < next_session_id tables.rows
replaced-id tables now none s m = next_session_id-lt s tables.rows m
replaced-id tables now (some old) s m =
    let is_old = λ (s : DeviceSession). s.session_id == old.session_id in
    let (x, mx, e) = deactivate-from is_old now tables.rows s m in
    let lt = next_session_id-lt x tables.rows mx in
    let id = ap (λ (z : DeviceSession). z.session_id) e ∙ left_id is_old now x in
    omega (arith, lt, id)

-- A new active session that has no rival.
appended-AreSound :
    (rows : List DeviceSession) (r : SignIn) (session_id now : ℕ)
    → AreSound rows
    → IsFree rows r
    → ((s : DeviceSession) → Elem s rows → s.session_id < session_id)
    → AreSound (rows ++ new_session r session_id now ∷ [])
appended-AreSound rows r session_id now sound free below =
    let new = new_session r session_id now in
    let unequal : (s : DeviceSession) → Elem s rows → s.session_id ≢ session_id =
      λ s m e. (let lt = below s m in omega (arith, lt, e)) in
    let alone : (s : DeviceSession) → Elem s rows → ¬ Rivals s new = λ s m rivals.
      (let f = free s m in let (active, _, t, u, p) = rivals in absurd (ground arith)) in
    record {
      keyed = λ a b ma mb e. elim (Elem-append rows (new ∷ []) ma) [
        | inl oa ↦ elim (Elem-append rows (new ∷ []) mb) [
          | inl ob ↦ sound.keyed a b oa ob e
          | inr nb ↦ elim (Elem-cons nb) [
            | inl eb ↦ absurd (unequal a oa (e ∙ ap (λ (z : DeviceSession). z.session_id) eb))
            | inr n ↦ elim n [ ]
          ]
        ]
        | inr na ↦ elim (Elem-cons na) [
          | inr n ↦ elim n [ ]
          | inl ea ↦ elim (Elem-append rows (new ∷ []) mb) [
            | inl ob ↦ absurd (unequal b ob (sym e ∙ ap (λ (z : DeviceSession). z.session_id) ea))
            | inr nb ↦ elim (Elem-cons nb) [ inl eb ↦ ea ∙ sym eb | inr n ↦ elim n [ ] ]
          ]
        ]
      ];
      single = λ a b ma mb rivals. elim (Elem-append rows (new ∷ []) ma) [
        | inl oa ↦ elim (Elem-append rows (new ∷ []) mb) [
          | inl ob ↦ sound.single a b oa ob rivals
          | inr nb ↦ elim (Elem-cons nb) [
            | inl eb ↦ absurd (alone a oa (subst (λ z. Rivals a z) eb rivals))
            | inr n ↦ elim n [ ]
          ]
        ]
        | inr na ↦ elim (Elem-cons na) [
          | inr n ↦ elim n [ ]
          | inl ea ↦ elim (Elem-append rows (new ∷ []) mb) [
            | inl ob ↦
                let (x, y, t, u, p) = rivals in
                let swapped : Rivals b a = (y, x, sym t, sym u, sym p) in
                absurd (alone b ob (subst (λ z. Rivals b z) ea swapped))
            | inr nb ↦ elim (Elem-cons nb) [ inl eb ↦ ea ∙ sym eb | inr n ↦ elim n [ ] ]
          ]
        ]
      ];
      cleared = λ s m off. elim (Elem-append rows (new ∷ []) m) [
        | inl o ↦ sound.cleared s o off
        | inr n ↦ elim (Elem-cons n) [
          | inl e ↦ absurd (let on = ap (λ (z : DeviceSession). z.is_active) e in cc)
          | inr none_left ↦ elim none_left [ ]
        ]
      ];
    }

pub register_session-IsSound :
    (tables : SessionTables) (r : SignIn) (now : ℕ) (tables' : SessionTables)
    → register_session tables r now ≡ ok tables'
    → IsSound tables
    → IsSound tables'
unfolding register_session
register_session-IsSound tables r now tables' h sound =
    let (long, h1) = raise_if-eq-ok (ltb (length r.fcm_token) 140) SessionError.invalid_token _ h in
    let old = find? (is_current r.user_type r.user_id r.platform) tables.rows in
    let left = replaced old now tables in
    let new = new_session r (next_session_id tables.rows) now in
    let (kept, free) = replaced-IsSound tables r now old refl sound in
    let rows' = left.rows ++ new ∷ [] in
    let live : IsLive (record { rows = rows'; tokens = left.tokens }) =
      λ c m. let (s, ms, for) = kept.1 c m in (s, Elem-append_left left.rows (new ∷ []) ms, for) in
    let after : IsSound (record {
      rows = rows';
      tokens = set_token r.user_type r.user_id (some r.fcm_token) left.tokens;
    }) =
      (
        appended-AreSound left.rows r (next_session_id tables.rows) now kept.0 free
            (replaced-id tables now old),
        set_token-IsLive rows' left.tokens r.user_type r.user_id (some r.fcm_token) live
            (λ t e. (new, Elem-append_right left.rows (new ∷ []) here, (refl, refl, refl, e))),
      ) in
    subst IsSound (ok_injective _ tables' h1) after
