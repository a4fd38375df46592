-- ===== src/Repository/Parties.antt =====
-- `upsert_party` of `app/repositories/fnol.py`. The session does not flush before a read, so the search
-- sees the rows that were stored before, `stored`, and not those added since. The lower case of the
-- database and of Python are one parameter.
use claims_workbench_be.Common.{
  Bool, ◌&&◌, Option, List, [], ◌∷◌, any, String, nat_eq, string_eq, ◌==◌, if◌then◌else◌,
}
use claims_workbench_be.Model.Case.{holds_text}
use claims_workbench_be.Model.Rows.{FnolParty}
use claims_workbench_be.Model.Db.{Db}

-- The case, the role and the name, without regard to case and outer blanks.
abbrev pub same_party : (String → String) → (String → String) → FnolParty → FnolParty → Bool
same_party lower strip p q =
    q.fnol_case_id == p.fnol_case_id && (q.role == p.role && lower q.name == lower (strip p.name))

abbrev pub text_or_old : Option String → Option String → Option String
text_or_old new old = if holds_text new then new else old

abbrev pub met_again : FnolParty → FnolParty → FnolParty
met_again p q = record q {
  organisation = text_or_old p.organisation q.organisation;
  email = text_or_old p.email q.email;
  phone = text_or_old p.phone q.phone;
}

-- The first row that matches is changed in place.
abbrev pub change_first :
    (FnolParty → Bool) → (FnolParty → FnolParty) → List FnolParty → List FnolParty
change_first test f [] = []
change_first test f (q ∷ rest) = if test q then f q ∷ rest else q ∷ change_first test f rest

unfoldable pub upsert_party :
    (String → String) → (String → String) → List FnolParty → FnolParty → Db → Db
upsert_party lower strip stored p db = record db {
  parties =
      if any (same_party lower strip p) stored
      then change_first (same_party lower strip p) (met_again p) db.parties
      else record p { name = strip p.name } ∷ db.parties;
}
