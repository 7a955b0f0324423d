-- ===== src/Api/Tests.antt =====
-- Requests that the client sends.
use antimoney.Prelude.{◌≡◌, refl, none, some, [], ◌∷◌, codes}
use antimoney.Api.{get_accounts, toggle_split_acknowledge, get_account_register_paged}

path_of_toggle : (toggle_split_acknowledge "s1" "c").path ≡ codes "/transactions/splits/s1/toggle"
path_of_toggle = refl

query_of_accounts : (get_accounts none (some "2026-05-01")).query ≡ ("end", codes "2026-05-01") ∷ []
query_of_accounts = refl

path_of_page :
    (get_account_register_paged (λ n. n ∷ []) "a1" (codes "12") "before" 50).path
    ≡ codes "/accounts/a1/register"
path_of_page = refl
