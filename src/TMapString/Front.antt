-- ===== src/TMapString/Front.antt =====
-- The order of `pop_front` in src/TMapString.h.
use cpplib.Prelude.{
  true, some, List, [], ◌∷◌, ℤ, pos, Text, text_key, text_eq_iff, text_less, ◌⊎◌, ◌≡◌, refl, arith,
  inl, inr,
}
use cpplib.OrderedMap.{find}
use cpplib.OrderedMap.Order.{Above, IsAscending, insert-IsAscending}
use cpplib.TMapString.{Items, returned, pop_front, push}

module _ {T : Type 0} where
  unfoldable pub push_all : List (Text × T) → Items T → Items T
  push_all [] items = items
  push_all ((k, v) ∷ entries) items = push_all entries (push k v items).1

  pub push_all-IsAscending :
      (entries : List (Text × T)) (items : Items T)
      → IsAscending items
      → IsAscending (push_all entries items)
  unfolding push_all push
  push_all-IsAscending [] items a = a
  push_all-IsAscending ((k, v) ∷ entries) items a =
      push_all-IsAscending entries _ (insert-IsAscending k v items a)

  find-Above :
      (k j : Text) (v : T) (m : Items T) → Above k m → find j m ≡ some v → text_less k j ≡ true
  unfolding find
  find-Above k j v [] a e = cc
  find-Above k j v ((i, w) ∷ m) a e = ground (arith, a, e, text_eq_iff i j, find-Above k j v m a.1)

  pop_front_cases :
      (items : Items T) (code : ℤ)
      → IsAscending items
      → ((items ≡ [])
          ⊎ ((k : Text) × (item : T) × (rest : Items T) × (pop_front code items
                ≡ returned (pos 0) (some item) rest)
              × (find k items ≡ some item)
              × Above k rest
              × IsAscending rest
              × ((j : Text) (v : T) → find j items ≡ some v → (j ≡ k) ⊎ (text_less k j ≡ true))))
  unfolding pop_front find
  pop_front_cases [] code a = inl refl
  pop_front_cases ((k, item) ∷ rest) code a = inr (
    k,
    item,
    rest,
    refl,
    ground (arith, text_eq_iff k k),
    a.0,
    a.1,
    λ j v e. ground (arith, e, text_eq_iff k j, find-Above k j v rest a.0),
  )

  -- After any pushes into an empty map, `pop_front` waits only if the map is empty; otherwise it
  -- returns 0 and the item of the least key, and leaves the entries behind it in order.
  pub pop_front_least :
      (entries : List (Text × T)) (code : ℤ)
      → let items = push_all entries [] in
        (items ≡ [])
        ⊎ ((k : Text) × (item : T) × (rest : Items T) × (pop_front code items
              ≡ returned (pos 0) (some item) rest)
            × (find k items ≡ some item)
            × Above k rest
            × IsAscending rest
            × ((j : Text) (v : T) → find j items ≡ some v → (j ≡ k) ⊎ (text_less k j ≡ true)))
  pop_front_least entries code =
      pop_front_cases (push_all entries []) code (push_all-IsAscending entries [] tt)
