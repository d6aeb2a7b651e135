-- ===== src/Cluster/Downloads/Links.antt =====
-- The link that is chosen.
use opendatahub_tests.Shared.{String, none, some, List, [], ◌∷◌, first, ◌≡◌, refl, arith}
use opendatahub_tests.Cluster.Errors.{Lookup, ok, err, value_error}
use opendatahub_tests.Cluster.Downloads.{is_oc_link, get_oc_console_cli_download_link}

-- The first link fits the system and the platform, if any does.
pub get_oc_console_cli_download_link-first :
    (os_system machine_platform : String) (links : List String)
    → get_oc_console_cli_download_link os_system machine_platform links
      ≡ elim (first (is_oc_link os_system machine_platform) links) as (λ _. Lookup String) [
        | none ↦ err value_error
        | some link ↦ ok link
      ]
unfolding get_oc_console_cli_download_link
get_oc_console_cli_download_link-first os_system machine_platform [] = refl
get_oc_console_cli_download_link-first os_system machine_platform (link ∷ links) =
    ground (arith, get_oc_console_cli_download_link-first os_system machine_platform links)
