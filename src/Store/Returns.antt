-- ===== src/Store/Returns.antt =====
-- Total correctness: a command returns, and its result and final store satisfy a predicate.
use perl_xml_lib_xml.Common.{◌≡◌}
use perl_xml_lib_xml.Store.{Store}
use perl_xml_lib_xml.Store.Outcome.{Outcome, done, croaked, fault, out_of_fuel, Cmd, after}

abbrev pub Returns {ℓ} : {A : Type ℓ} → Outcome A → (A → Store → Type 0) → Type 0
Returns (done a h) P = P a h
Returns (croaked e h) P = ⊥
Returns fault P = ⊥
Returns out_of_fuel P = ⊥

module _ {ℓ κ} {A : Type ℓ} {B : Type κ} where
  pub Returns-after :
      (r : Outcome A) (k : A → Cmd B) (P : A → Store → Type 0) (Q : B → Store → Type 0)
      → Returns r P
      → ((a : A) (h : Store) → P a h → Returns (k a h) Q)
      → Returns (after r k) Q
  Returns-after (done a h) k P Q p next = next a h p
  Returns-after (croaked e h) k P Q p next = elim p [ ]
  Returns-after fault k P Q p next = elim p [ ]
  Returns-after out_of_fuel k P Q p next = elim p [ ]

module _ {ℓ} {A : Type ℓ} where
  pub Returns-mono :
      (r : Outcome A) (P Q : A → Store → Type 0)
      → Returns r P
      → ((a : A) (h : Store) → P a h → Q a h)
      → Returns r Q
  Returns-mono (done a h) P Q p weaken = weaken a h p
  Returns-mono (croaked e h) P Q p weaken = elim p [ ]
  Returns-mono fault P Q p weaken = elim p [ ]
  Returns-mono out_of_fuel P Q p weaken = elim p [ ]

  pub Returns_of_eq :
      {r : Outcome A} {a : A} {h : Store} (P : A → Store → Type 0)
      → r ≡ done a h
      → P a h
      → Returns r P
  Returns_of_eq P e p = rw e p
