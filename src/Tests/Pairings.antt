-- ===== src/Tests/Pairings.antt =====
-- The pairings at concrete inputs.
use muser_console.Base.{true, codes, [], ◌∷◌, ◌≡◌, refl, arith}
use muser_console.Auth.Compare.{constant_time_eq}
use muser_console.State.Types.{AppState}
use muser_console.State.Pairings.{consume_pairing, consume_pairing_at}
use muser_console.State.Pairings.Cap.{IsCapped, consumes, run, run-IsCapped}
use muser_console.Tests.Data.{plain, console}

abbrev waiting : AppState
waiting = record console {
  pairings =
      record {
        id = codes "id";
        token_hash = codes "token";
        issuer_hash = codes "me";
        expiry = 5000;
        origin = codes "https://h";
      }
      ∷ [];
}

redeemed : (consume_pairing plain waiting (codes "token") (codes "https://h") 1000).1 ≡ true
unfolding consume_pairing consume_pairing_at constant_time_eq
redeemed = refl

few : IsCapped []
few issuer = omega arith

run-IsCapped_example :
    IsCapped (run plain console (consumes (codes "token") (codes "https://h") 1000 ∷ [])).pairings
run-IsCapped_example =
    run-IsCapped plain console (consumes (codes "token") (codes "https://h") 1000 ∷ []) few
