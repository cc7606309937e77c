-- ===== src/Db/Aliases.antt =====
-- internal/db/store_mail.go, the aliases.
use wispbox.Base.{
  ℕ, Text, codes, Bool, true, false, not, ◌&&◌, List, ◌++◌, Option, none, some, Result, ok, ltb,
  err, ◌==◌, if◌then◌else◌, to_lower, trim_space, same, cut, map,
}
use wispbox.Base.Outcome.{checked}
use wispbox.Base.Rows.{find, select, delete, update, exists, count, order_by}
use wispbox.Db.Errors.{
  Error, Entity, not_found, already_exists, alias_not_on_domain, alias_to_itself,
}
use wispbox.Db.Models.{Alias}
use wispbox.Db.Tables.{Store, append, with_rows, format_time, nocase}
use wispbox.Db.Validate.{validate_local_part, validate_email}
use wispbox.Db.Domains.{get_domain}
use wispbox.Db.Mailboxes.{address}

unfoldable pub scan_alias : Option Alias → Result Error Alias
scan_alias none = err (not_found Entity.alias)
scan_alias (some a) = ok a

unfoldable pub get_alias : ℕ → Store → Result Error Alias
unfolding find scan_alias
get_alias id s = scan_alias (find (λ a. a.id == id) s.aliases.rows)

-- What a request's source stands for: the local part and the domain, which a bare local part lacks.
unfoldable pub split_source : Text → Text → Text × Text
split_source source domain = elim (cut source b'@') [ none ↦ (source, domain) | some parts ↦ parts ]

-- The source that is stored.
unfoldable pub alias_source : Text → Text → Bool → Result Error Text
alias_source source domain true = ok (codes "@" ++ domain)
alias_source source domain false =
    let (lp, sdom) = split_source (to_lower (trim_space source)) domain in
    if not (same sdom domain)
    then err alias_not_on_domain
    else elim (validate_local_part lp) [ err e ↦ err e | ok _ ↦ ok (address lp domain) ]

abbrev pub clashes_alias : Text → Text → Alias → Bool
clashes_alias source destination a = nocase a.source source && nocase a.destination destination

unfoldable pub insert_alias : ℕ → ℕ → Text → Text → Bool → Store → Store × Result Error Alias
unfolding exists nocase get_alias
insert_alias now domain_id source destination is_catch_all s =
    let s' : Store = record s {
      aliases = append s.aliases (record {
        id = s.aliases.next;
        domain_id = domain_id;
        source = source;
        destination = destination;
        is_catch_all = is_catch_all;
        enabled = true;
        created_at = format_time now;
        updated_at = format_time now;
      });
    } in
    if exists (clashes_alias source destination) s.aliases.rows
    then (s, err (already_exists Entity.alias))
    else (s', get_alias s.aliases.next s')

module _ (parse_address : Text → Option Text) where
  unfoldable pub create_alias : ℕ → ℕ → Text → Text → Bool → Store → Store × Result Error Alias
  create_alias now domain_id source destination is_catch_all s =
      checked (get_domain domain_id s) s λ dom.
        let dest = to_lower (trim_space destination) in
        checked (validate_email parse_address dest) s λ _.
          checked (alias_source source dom.name is_catch_all) s λ src.
            if same src dest
            then (s, err alias_to_itself)
            else insert_alias now domain_id src dest is_catch_all s

unfoldable pub list_aliases : ℕ → Store → List Alias
unfolding select order_by to_lower
list_aliases domain_id s =
    order_by (λ a. to_lower a.source)
      (if ltb 0 domain_id
        then select (λ a. a.domain_id == domain_id) s.aliases.rows
        else s.aliases.rows)

unfoldable pub count_aliases : ℕ → Store → ℕ
unfolding count
count_aliases domain_id s =
    if ltb 0 domain_id
    then count (λ a. a.domain_id == domain_id) s.aliases.rows
    else count (λ _. true) s.aliases.rows

unfoldable pub list_alias_sources_for_destination : Text → Store → List Text
unfolding select nocase to_lower trim_space
list_alias_sources_for_destination destination s =
    map (λ a. a.source)
      (select (λ a. nocase a.destination (to_lower (trim_space destination)) && a.enabled)
        s.aliases.rows)

unfoldable pub update_alias_enabled : ℕ → ℕ → Bool → Store → Store
unfolding update
update_alias_enabled now id enabled s = record s {
  aliases = with_rows s.aliases (
      update (λ a. a.id == id) (λ a. record a { enabled = enabled; updated_at = format_time now })
        s.aliases.rows);
}

unfoldable pub delete_alias : ℕ → Store → Store × Result Error (Unit {0})
unfolding exists delete
delete_alias id s =
    if exists (λ a. a.id == id) s.aliases.rows
    then (
      record s { aliases = with_rows s.aliases (delete (λ a. a.id == id) s.aliases.rows) },
      ok tt,
    )
    else (s, err (not_found Entity.alias))
