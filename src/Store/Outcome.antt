-- ===== src/Store/Outcome.antt =====
-- Commands on the store. A command returns, leaves the function by `croak`, follows a pointer that may
-- not be followed, or has no fuel left for a loop.
use perl_xml_lib_xml.Common.{Bool, if◌then◌else◌}
use perl_xml_lib_xml.Store.{Store, Message}

pub data Outcome {ℓ} (A : Type ℓ) : Type ℓ where
  done : A → Store → Outcome A
  croaked : Message → Store → Outcome A
  fault : Outcome A
  out_of_fuel : Outcome A

abbrev pub Cmd {ℓ} : Type ℓ → Type ℓ
Cmd A = Store → Outcome A

module _ {ℓ} {A : Type ℓ} where
  abbrev pub pure : A → Cmd A
  pure a h = done a h

  abbrev pub croak : Message → Cmd A
  croak e h = croaked e h

  abbrev pub no_fuel : Cmd A
  no_fuel h = out_of_fuel

module _ {ℓ κ} {A : Type ℓ} {B : Type κ} where
  abbrev pub after : Outcome A → (A → Cmd B) → Outcome B
  after (done a h) k = k a h
  after (croaked e h) k = croaked e h
  after fault k = fault
  after out_of_fuel k = out_of_fuel

  infixl 5 ◌>>=◌ ◌>>◌
  abbrev pub ◌>>=◌ : Cmd A → (A → Cmd B) → Cmd B
  ◌>>=◌ m k h = after (m h) k

  abbrev pub ◌>>◌ : Cmd A → Cmd B → Cmd B
  ◌>>◌ m n h = after (m h) λ _. n

-- `if (b) { m }` with nothing on the other side.
abbrev pub when : Bool → Cmd (Unit {0}) → Cmd (Unit {0})
when b m h = if b then m h else done tt h
