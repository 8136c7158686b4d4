-- ===== src/Models/Aliases/Created.antt =====
-- An alias from its creation to a request, cmd/server/model_policies.go.
use opencode_rush_free.Base.{bytes_eq, nat_eq, string_eq}
