-- ===== src/PeersHolder/Maps.antt =====
-- A Go map whose values are slices: a missing key reads as the nil slice.
use drt_go_chain_communicati.Prelude.{
  Bool, true, false, List, [], Option, none, some, ◌≡◌, ◌≢◌, Comparable, Dict, lookup, insert,
  erase, lookup-insert_self, lookup-insert_ne, lookup-erase_self, lookup-erase_ne,
}

abbrev pub or_empty {ℓ} : {A : Type ℓ} → Option (List A) → List A
or_empty none = []
or_empty (some xs) = xs

abbrev pub is_some {ℓ} : {A : Type ℓ} → Option A → Bool
is_some none = false
is_some (some a) = true

module _ {ℓ κ} {K : Type ℓ} {V : Type κ} ⦃e : Comparable K⦄ where
  unfoldable pub get_list : K → Dict K (List V) → List V
  get_list k m = or_empty (lookup k m)

  pub get_list-insert_self :
      (k : K) (xs : List V) (m : Dict K (List V)) → get_list k (insert k xs m) ≡ xs
  unfolding get_list
  get_list-insert_self k xs m = rw (lookup-insert_self k xs m)

  pub get_list-insert_ne :
      (k j : K) (xs : List V) (m : Dict K (List V))
      → k ≢ j
      → get_list j (insert k xs m) ≡ get_list j m
  unfolding get_list
  get_list-insert_ne k j xs m h = rw (lookup-insert_ne k j xs m h)

  pub get_list-erase_self : (k : K) (m : Dict K (List V)) → get_list k (erase k m) ≡ []
  unfolding get_list
  get_list-erase_self k m = rw (lookup-erase_self k m)

  pub get_list-erase_ne :
      (k j : K) (m : Dict K (List V)) → k ≢ j → get_list j (erase k m) ≡ get_list j m
  unfolding get_list
  get_list-erase_ne k j m h = rw (lookup-erase_ne k j m h)
