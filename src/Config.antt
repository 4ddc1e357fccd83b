-- ===== src/Config.antt =====
-- `Settings.allowed_hosts` of src/workflow_engine/config.py. A text is the list of its code points;
-- `str.lower`, which follows the tables of Unicode, is an argument.
use platform_forge.Schema.{Text, strip, is_empty}
use platform_forge.Prelude.{ℕ, List, [], ◌∷◌, if◌then◌else◌, ◌==◌}

abbrev comma : ℕ
comma = 44

-- A character before the first part.
abbrev extend : ℕ → List Text → List Text
extend c [] = (c ∷ []) ∷ []
extend c (part ∷ rest) = (c ∷ part) ∷ rest

-- split(",")
unfoldable pub split_comma : Text → List Text
split_comma [] = [] ∷ []
split_comma (c ∷ s) = let parts = split_comma s in if c == comma then [] ∷ parts else extend c parts

-- The elements of the set, with repetitions.
unfoldable pub hosts_of : (Text → Text) → List Text → List Text
hosts_of lower [] = []
hosts_of lower (part ∷ rest) =
    let more = hosts_of lower rest in
    if is_empty (strip part) then more else lower (strip part) ∷ more

unfoldable pub allowed_hosts : (Text → Text) → Text → List Text
allowed_hosts lower allowed_http_hosts = hosts_of lower (split_comma allowed_http_hosts)
