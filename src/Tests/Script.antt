-- ===== src/Tests/Script.antt =====
-- src/core/script.cpp and src/vm/compiler.cpp: known answers.
use rex_coin.Base.Text.{eqb}
use rex_coin.Base.{◌≡◌, refl, codes, ◌∷◌, []}
use rex_coin.Core.Script.{build_p2pkh, extract_address, detect_type, find}
use rex_coin.Vm.Compiler.{compile, tokenize, emit_all, emit_token}

extract_p2pkh : extract_address (build_p2pkh (codes "abc123")) ≡ codes "abc123"
unfolding extract_address detect_type build_p2pkh find eqb
extract_p2pkh = refl

compile_push_halt : compile (codes "PUSH 7\n HALT") ≡ 1 ∷ 1 ∷ 55 ∷ 98 ∷ []
unfolding compile tokenize emit_all emit_token eqb
compile_push_halt = refl
