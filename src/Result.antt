-- ===== src/Result.antt =====
-- `Result<T, String>`: the errors of the playback code are messages.
use transonic.Prelude.{String, Bool, true, false}

pub data Result {ℓ} (A : Type ℓ) : Type ℓ where
  ok : A → Result A
  err : String → Result A

abbrev pub is_ok {ℓ} : {A : Type ℓ} → Result A → Bool
is_ok (ok _) = true
is_ok (err _) = false
