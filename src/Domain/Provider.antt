-- ===== src/Domain/Provider.antt =====
-- internal/domain/provider.go: the providers.
use multi_agent_desk.Prelude.{Bool, ◌||◌, Text, text_eq, bytes}

abbrev pub fake : Text
fake = bytes "fake"

abbrev pub codex : Text
codex = bytes "codex"

abbrev pub claude : Text
claude = bytes "claude"

unfoldable pub provider_known : Text → Bool
provider_known provider = text_eq provider fake || text_eq provider codex || text_eq provider claude
