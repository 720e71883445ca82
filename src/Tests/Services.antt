-- ===== src/Tests/Services.antt =====
-- src/storage/cache.cpp: the theorems on a few calls.
use rex_coin.Base.{◌≡◌, ◌≤◌, List, [], ◌∷◌, codes}
use rex_coin.Crypto.Sha256.Digest.{sha256_hasher}
use rex_coin.Storage.Cache.{new_cache}
use rex_coin.Storage.Cache.Refinement.{Call, puts, gets, serve, serve_recent, serve-serve_recent}

-- With room for one entry the first of two goes.
abbrev two_puts : List Call
two_puts = puts (codes "a") (codes "1") ∷ puts (codes "b") (codes "2") ∷ gets (codes "a") ∷ []

serve-serve_recent_example :
    (serve two_puts (new_cache 1) ≡ serve_recent 1 two_puts [])
    × ((serve two_puts (new_cache 1)).1 ≤ 1)
serve-serve_recent_example = serve-serve_recent 1 two_puts
