-- ===== src/Setup/Overlap.antt =====
-- Requests to the wizard that overlap. createAdmin counts the administrators, and later inserts one, with no
-- lock or transaction round the two, so that other requests may come between.
use wispbox.Base.{ℕ, ◌-◌, true, suc, ◌+◌, ◌≤◌, ◌<◌, Text, Bool, false, Option, none, ◌≡◌, arith, ap}
use wispbox.Base.Rows.{count}
use wispbox.Db.Models.{Admin}
use wispbox.Db.Tables.{Table}
use wispbox.Db.Admins.{count_admins}
use wispbox.Db.Settings.{is_initialized}
use wispbox.Auth.Sessions.{Sessions, Request}
use wispbox.Setup.{Wizard, Step, serve, admit, make_admin}
use wispbox.Setup.FirstAdmin.{admins_of, make_admin-count, admit_lem, serve-count}

module _ (hash mac : Text → Text) (hash_password : Text → Option Text)
    (parse_address : Text → Option Text) (valid_ip : Bool → Text → Bool) where
  -- What the wizard goes through from `a` on, with at most `most` requests under way at a time that would
  -- create an administrator. The number is of those that have found none and have not inserted theirs. A
  -- request that nothing comes between is served whole. The other routes leave the administrators alone.
  pub data Reach (most : ℕ) (a : Wizard) : ℕ → Wizard → Type 0 where
    here : Reach most a 0 a
    begins :
        (now : ℕ) (ip : Text) {n : ℕ} {b : Wizard}
        → Reach most a n b
        → n < most
        → is_initialized b.sessions.store ≡ false
        → (admit hash mac hash_password parse_address valid_ip now ip b).1 ≡ none
        → Reach most a (suc n) (admit hash mac hash_password parse_address valid_ip now ip b).0
    inserts :
        (now : ℕ) (token ip username password : Text) {n : ℕ} {b : Wizard}
        → Reach most a (suc n) b
        → Reach most a n (record b {
          sessions =
              (make_admin hash mac hash_password parse_address valid_ip now token ip username
                password b.sessions).0;
        })
    served :
        (now : ℕ) (token ip : Text) (r : Request) (step : Step) {n : ℕ} {b : Wizard}
        → Reach most a n b
        → n < most
        → Reach most a n
            (serve hash mac hash_password parse_address valid_ip now token ip r step b).0
    other :
        {n : ℕ} {b c : Wizard}
        → Reach most a n b
        → admins_of c.sessions ≡ admins_of b.sessions
        → Reach most a n c

  -- If no more than `most` requests to create an administrator are under way at any time, the wizard, begun
  -- with no administrator, never creates more than `most`, those still to be inserted included: one, if they come one after the other.
  pub Reach-count_admins :
      (most : ℕ) {a : Wizard} {n : ℕ} {b : Wizard}
      → count_admins a.sessions.store ≡ 0
      → Reach most a n b
      → count_admins b.sessions.store + n ≤ most
  unfolding count_admins
  Reach-count_admins most h here = omega (arith, h)
  Reach-count_admins most h (begins now ip {n} {b} p few open_ passed) =
      let (same_sessions, none_yet) =
        admit_lem hash mac hash_password parse_address valid_ip now ip b in
      omega (arith, few, none_yet passed, ap (λ (t : Sessions). count_admins t.store) same_sessions)
  Reach-count_admins most h (inserts now token ip username password {n} {b} p) = omega (
    arith,
    Reach-count_admins most h p,
    make_admin-count hash mac hash_password parse_address valid_ip now token ip username password
        b.sessions,
  )
  Reach-count_admins most h (served now token ip r step {n} {b} p few) =
      let before = Reach-count_admins most h p in
      omega (
        arith,
        few,
        before,
        serve-count hash mac hash_password parse_address valid_ip now token ip r step b (most - n)
            (omega (arith, few)) (omega (arith, before)),
      )
  Reach-count_admins most h (other {n} {b} {c} p e) =
      omega
        (arith, Reach-count_admins most h p, ap (λ (t : Table Admin). count (λ _. true) t.rows) e)
