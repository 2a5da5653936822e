-- ===== src/Store/Start/Install.antt =====
-- The id of a database (webhook_doorman/store/sqlite.py, `_install_id`), on the one row of `meta`. The
-- token is random, and an argument.
use webhook_doorman.Prelude.{◌≡◌, refl, Option, none, some, List, [], ◌∷◌}
use webhook_doorman.Prelude.Text.{Text}

-- INSERT OR IGNORE.
abbrev pub insert_id : Text → Option Text → Option Text
insert_id token none = some token
insert_id token (some value) = some value

-- The statements of other instances that come in between.
abbrev pub insert_ids : List Text → Option Text → Option Text
insert_ids [] row = row
insert_ids (token ∷ tokens) row = insert_ids tokens (insert_id token row)

-- What the second SELECT reads. The INSERT leaves a row, so there is one.
abbrev pub read_back : Option Text → Text
read_back none = []
read_back (some value) = value

-- `others` are the tokens that other instances insert between the first SELECT and the INSERT.
unfoldable pub install_id : Text → List Text → Option Text → Text × Option Text
install_id token others (some value) = (value, some value)
install_id token others none =
    let row = insert_id token (insert_ids others none) in (read_back row, row)

insert_ids_kept : (tokens : List Text) (value : Text) → insert_ids tokens (some value) ≡ some value
insert_ids_kept [] value = refl
insert_ids_kept (token ∷ tokens) value = insert_ids_kept tokens value

install_id_stored :
    (token : Text) (others : List Text) (row : Option Text)
    → (install_id token others row).1 ≡ some ((install_id token others row).0)
unfolding install_id
install_id_stored token others (some value) = refl
install_id_stored token [] none = refl
install_id_stored token (other ∷ others) none = rw (insert_ids_kept others other) refl

-- The id is one for all instances, and stable: whatever an instance's token and whoever comes in
-- between, a later connection, of any instance and with any token, reads the id that it read.
pub install_id-install_id :
    (token token' : Text) (others others' : List Text) (row : Option Text)
    → (install_id token' others' (install_id token others row).1).0
      ≡ (install_id token others row).0
install_id-install_id token token' others others' row =
    rw (install_id_stored token others row) (later (install_id token others row).0)
  where
    later : (value : Text) → (install_id token' others' (some value)).0 ≡ value
    later value = unfold install_id in refl
