-- ===== src/Models/Tests.antt =====
-- An alias.
use opencode_rush_free.Base.{
  [], bytes_eq, bytes_eqb, codes, false, lookup, nat_eq, none, refl, some, string_eq, true, ◌∷◌,
  ◌≡◌,
}
use opencode_rush_free.Models.Aliases.{ModelState, AliasForm, create_model_alias}
use opencode_rush_free.Models.Aliases.Cached.{CacheFresh}
use opencode_rush_free.Models.{ModelRuntime, model_available, resolve_model}
use opencode_rush_free.Models.Resolve.{Names, resolve_model-available}

abbrev runtime : ModelRuntime
runtime = record { models = (codes "m", true) ∷ []; aliases = (codes "a", codes "m") ∷ [] }

resolve_model-available_example :
    Names runtime (codes "a") (codes "m") × (model_available runtime (codes "m") ≡ true)
unfolding resolve_model lookup bytes_eqb
resolve_model-available_example = resolve_model-available runtime (codes "a") (codes "m") refl

-- Tables with two free models, of which one is switched off, and no alias.
abbrev tables : ModelState
tables = record {
  rows =
      record { id = 1; model_id = codes "glm"; is_free = true }
      ∷ record { id = 2; model_id = codes "kimi"; is_free = true }
      ∷ [];
  policies = (codes "kimi", false) ∷ [];
  aliases = [];
  next_id = 1;
  cached = none;
}

abbrev nickname : AliasForm
nickname = record { alias = codes " fast "; target = codes "glm" }

tables-CacheFresh : CacheFresh tables
unfolding CacheFresh
tables-CacheFresh = tt

-- The cache of a request from before the alias was there.
abbrev read_tables : ModelState
read_tables = record tables {
  cached =
      some (record { models = (codes "glm", true) ∷ (codes "kimi", false) ∷ []; aliases = [] });
}

-- An alias that is a free model's name, or has a blank inside, is refused.
refused_aliases :
    ((create_model_alias true true
        (some (record { alias = codes "kimi"; target = codes "glm" }))
        tables).0
      ≡ 400)
    × ((create_model_alias true true
          (some (record { alias = codes "a b"; target = codes "glm" }))
          tables).0
        ≡ 400)
unfolding create_model_alias bytes_eqb
refused_aliases = (refl, refl)
