-- ===== src/Auth/Sessions/Swept.antt =====
-- The credentials that a sweep leaves in memory.
use wispbox.Base.{
  ap, ℕ, ◌≤◌, ◌&&◌, Text, Bool, true, not, List, [], ◌∷◌, none, some, arith, ◌≡◌, ◌↔◌, inl, inr,
  refl, In, same, same_iff, same_refl, Bool-cases, ltb, if◌then◌else◌,
}
use wispbox.Base.Rows.{find, delete, find-some, find-In, exists-In, In-delete}
use wispbox.Db.Models.{Session, UserType}
use wispbox.Db.Tables.{format_time}
use wispbox.Db.Sessions.{prune_sessions, same_user_type}
use wispbox.Auth.Sessions.{Sessions, Entry, Credentials, credentials_for, sweep, is_live}

is_mailbox : (t : UserType) → same_user_type t UserType.mailbox ≡ true → t ≡ UserType.mailbox
is_mailbox UserType.mailbox h = refl
is_mailbox UserType.admin h = cc h

entries_left :
    (keep : Text → Bool) (id : Text) (es : List Entry)
    → find (λ e. same e.session_id id) (delete (λ e. not (keep e.session_id)) es)
      ≡ (if keep id then find (λ e. same e.session_id id) es else none)
unfolding find delete
entries_left keep id [] = ground arith
entries_left keep id (e ∷ es) = elim (Bool-cases (same e.session_id id)) [
  | inl k ↦
      let q = ap keep ((same_iff e.session_id id).0 k) in ground (arith, entries_left keep id es)
  | inr k ↦ ground (arith, entries_left keep id es)
]

is_live_lem :
    (xs : List Session) (id : Text)
    → (is_live xs id ≡ true)
      ↔ ((x : Session) × In x xs × (x.id ≡ id) × (x.user_type ≡ UserType.mailbox))
unfolding is_live
is_live_lem xs id =
    let live : Session → Bool = λ x. same_user_type x.user_type UserType.mailbox && same x.id id in
    (
      λ h.
          let (x, q) = find-some live xs h in
          let (m, k) = find-In live xs q in
          (
            x,
            m,
            (same_iff x.id id).0 (ground (arith, k)),
            is_mailbox x.user_type (ground (arith, k)),
          ),
      λ (x, m, e, t). exists-In live xs x m (rw (e, t, same_refl id) refl),
    )

-- After a sweep, credentials are in memory for a session exactly if they were before and the session stands
-- in the database as one of a mailbox whose expiry has not passed, times taken to the millisecond.
pub sweep-credentials_for :
    (now : ℕ) (st : Sessions) (id : Text) (c : Credentials)
    → (credentials_for id (sweep now st) ≡ some c) ↔ (
        (credentials_for id st ≡ some c)
        × ((x : Session) × In x st.store.sessions
            × (x.id ≡ id)
            × (x.user_type ≡ UserType.mailbox)
            × (format_time now ≤ x.expires_at)))
unfolding credentials_for sweep prune_sessions
sweep-credentials_for now st id c =
    let over : Session → Bool = λ x. ltb x.expires_at (format_time now) in
    let left = delete over st.store.sessions in
    elim (Bool-cases (is_live left id)) [
      | inl e ↦
          let (x, m, i, t) = (is_live_lem left id).0 e in
          let (m', u) = (In-delete over st.store.sessions x).0 m in
          rw (credentials_for, entries_left (is_live left) id st.creds, e)
            ((λ h. (h, (x, m', i, t, ground (arith, u)))), λ h. h.0)
      | inr e ↦
          rw (credentials_for, entries_left (is_live left) id st.creds, e)
            (
              (λ h. cc h),
              λ (h, (x, m, i, t, u)). cc (
                e,
                (is_live_lem left id).1
                    (x, (In-delete over st.store.sessions x).1 (m, ground (arith, u)), i, t),
              ),
            )
    ]
