-- ===== src/TMapString/Pushed.antt =====
-- `pop` after `push` in src/TMapString.h.
use cpplib.Prelude.{none, some, [], ◌∷◌, ℤ, pos, Text, text_key, text_eq_iff, ◌≡◌, arith, ◌∙◌}
use cpplib.OrderedMap
use cpplib.OrderedMap.{find}
use cpplib.OrderedMap.Laws.{find-insert, find-erase}
use cpplib.TMapString.{Items, returned, pop, pop_timeout, push}

module _ {T : Type 0} where
  find-push :
      (key : Text) (item : T) (items : Items T)
      → find key items ≡ none
      → find key (push key item items).1 ≡ some item
  unfolding push
  find-push key item items e =
      ground (arith, e, find-insert key key item items, text_eq_iff key key)

  pop-take_key :
      (key : Text) (code : ℤ) (items : Items T) (item : T)
      → find key items ≡ some item
      → pop key code items ≡ returned (pos 0) (some item) (OrderedMap.erase key items)
  unfolding pop find
  pop-take_key key code [] item e = cc
  pop-take_key key code (x ∷ items) item e = ground (arith, e)

  -- Both methods named `pop` return 0 and the item that was pushed under an absent key, without a
  -- wait, and leave the map at every key as it was before the push.
  pub pop-push :
      (key : Text) (code : ℤ) (item : T) (items after : Items T)
      → find key items ≡ none
      → (rest : Items T) × (pop key code (push key item items).1
          ≡ returned (pos 0) (some item) rest)
        × (pop_timeout key code (push key item items).1 after ≡ returned (pos 0) (some item) rest)
        × ((j : Text) → find j rest ≡ find j items)
  unfolding pop_timeout
  pop-push key code item items after e =
      let pushed = (push key item items).1 in
      let there = find-push key item items e in
      (
        OrderedMap.erase key pushed,
        pop-take_key key code pushed item there,
        ground (arith, there),
        λ j.
            find-erase key j pushed
            ∙ (unfold push in ground (arith, e, find-insert key j item items, text_eq_iff key j)),
      )
