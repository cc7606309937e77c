-- ===== src/Configgen/Routing/Lines.antt =====
-- The lines of sasl_passwd against the credentials that the nexthops were seen with.
use mathlib.Core.List.{append-nil}
use wispbox.Base.{
  Text, false, List, [], ◌∷◌, ◌++◌, Option, none, some, if◌then◌else◌, same, same_iff, same_refl,
  ◌≡◌, refl, In, ap, sym, subst, ◌∙◌, Bool-cases, inl, inr,
}
use wispbox.Base.Rows.{find, find-append, find-append_skip}
use wispbox.Base.Assoc.{get, put, get-put, get-put_other}
use wispbox.Configgen.Routing.{SaslEntry, SenderTransport, Routing, no_routing}

-- The line of sasl_passwd that Postfix reads for a nexthop, and its credentials.
abbrev pub line_for : Text → List SaslEntry → Option SaslEntry
unfolding find same
line_for h es = find (λ e. same e.nexthop h) es

unfoldable pub login_at : Text → List SaslEntry → Text
unfolding line_for
login_at h es = elim (line_for h es) [ none ↦ [] | some e ↦ e.credentials ]

-- The line that a nexthop should have, by the credentials it was seen with.
abbrev pub wanted : Text → Option Text → Option SaslEntry
unfolding same
wanted h none = none
wanted h (some c) = if same c [] then none else some (record { nexthop = h; credentials = c })

abbrev pub IsSound : Routing → Type 0
IsSound d = (h : Text) → line_for h d.sasl_entries ≡ wanted h (get h d.seen_nexthop)

abbrev pub IsKept : Routing → Routing → Type 0
IsKept d d' =
    ((h c : Text) → get h d.seen_nexthop ≡ some c → get h d'.seen_nexthop ≡ some c)
    × ((t : SenderTransport) → In t d.sender_transports → In t d'.sender_transports)
    × (d'.default_transport ≡ d.default_transport)

pub login_at_sound :
    (h c : Text) (d : Routing)
    → IsSound d
    → get h d.seen_nexthop ≡ some c
    → login_at h d.sasl_entries ≡ c
unfolding login_at wanted
login_at_sound h c d sound e = elim (Bool-cases (same c [])) [
  | inl q ↦ rw (login_at, sound h, e, q) (sym ((same_iff c []).0 q))
  | inr q ↦ rw (login_at, sound h, e, q) refl
]

pub no_routing-IsSound : IsSound no_routing
unfolding line_for wanted get
no_routing-IsSound h = refl

-- The line that a new nexthop gets, if any.
abbrev pub new_line : Text → Text → List SaslEntry
new_line hop creds =
    if same creds [] then [] else record { nexthop = hop; credentials = creds } ∷ []

line_for-new :
    (hop creds : Text) (es : List SaslEntry)
    → line_for hop es ≡ none
    → line_for hop (es ++ new_line hop creds) ≡ wanted hop (some creds)
unfolding line_for wanted
line_for-new hop creds es h = elim (Bool-cases (same creds [])) [
  | inl e ↦ rw (e, append-nil es) h
  | inr e ↦
      rw
        (
          e,
          find-append (λ (l : SaslEntry). same l.nexthop hop) es
              (record { nexthop = hop; credentials = creds }),
          h,
          same_refl hop,
        )
        refl
]

line_for-other :
    (hop x creds : Text) (es : List SaslEntry)
    → same hop x ≡ false
    → line_for x (es ++ new_line hop creds) ≡ line_for x es
unfolding line_for
line_for-other hop x creds es q = elim (Bool-cases (same creds [])) [
  | inl e ↦ rw (e, append-nil es) refl
  | inr e ↦ rw e (
      find-append_skip (λ (l : SaslEntry). same l.nexthop x) es
        (record { nexthop = hop; credentials = creds }) q)
]

pub new_line-IsSound :
    (hop creds : Text) (es : List SaslEntry) (seen : List (Text × Text))
    → get hop seen ≡ none
    → ((x : Text) → line_for x es ≡ wanted x (get x seen))
    → (x : Text) → line_for x (es ++ new_line hop creds) ≡ wanted x (get x (put hop creds seen))
unfolding wanted
new_line-IsSound hop creds es seen new h x = elim (Bool-cases (same hop x)) [
  | inr q ↦ rw (get-put_other hop x creds seen q) (line_for-other hop x creds es q ∙ h x)
  | inl q ↦
      let here : hop ≡ x = (same_iff hop x).0 q in
      subst (λ y. line_for y (es ++ new_line hop creds) ≡ wanted y (get y (put hop creds seen)))
        here (rw (get-put hop creds seen) (line_for-new hop creds es (h hop ∙ ap (wanted hop) new)))
]

pub get-put_kept :
    (hop creds : Text) (seen : List (Text × Text))
    → get hop seen ≡ none
    → (x c : Text) → get x seen ≡ some c
    → get x (put hop creds seen) ≡ some c
get-put_kept hop creds seen new x c e = elim (Bool-cases (same hop x)) [
  | inr q ↦ get-put_other hop x creds seen q ∙ e
  | inl q ↦ cc (subst (λ y. get y seen ≡ none) ((same_iff hop x).0 q) new, e)
]
