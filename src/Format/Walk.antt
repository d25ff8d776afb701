-- ===== src/Format/Walk.antt =====
-- The printers' loops over maps: with a writer, and as texts in order.
use primordium.Base.{◌≡◌, sym, Bytes, List, [], ◌∷◌, ◌++◌}
use primordium.Format.Writer.{Writer, Print, emit, done, ◌then_do◌, write_all, write_all-append}
use primordium.Format.Keys.{visit, map_values, visit-map_values}

-- The texts of all entries, by sorted keys.
abbrev pub joined : List (Bytes × List Bytes) → List Bytes
joined = visit (λ texts rest. texts ++ rest) []

module _ (W : Writer) where
  -- `for _, key := range keys { … }` over sorted keys, on a map that holds at each key the call that
  -- the loop makes for it; an error ends the loop.
  abbrev pub by_keys : List (Bytes × Print W) → Print W
  by_keys = visit (λ p rest. ◌then_do◌ W p rest) (done W)

  pub cons_lines :
      (text : Bytes) (texts : List Bytes) (p : Print W)
      → p ≡ write_all W texts
      → (◌then_do◌ W (emit W text) p) ≡ write_all W (text ∷ texts)
  unfolding write_all
  cons_lines text texts p e = rw e

  pub append_lines :
      (xs ys : List Bytes) (p q : Print W)
      → p ≡ write_all W xs
      → q ≡ write_all W ys
      → (◌then_do◌ W p q) ≡ write_all W (xs ++ ys)
  append_lines xs ys p q e f = rw (e, f) (sym (write_all-append W xs ys))

  pub by_keys_lines :
      (m : List (Bytes × Print W)) (texts : List (Bytes × List Bytes))
      → m ≡ map_values (write_all W) texts
      → by_keys m ≡ write_all W (joined texts)
  unfolding write_all
  by_keys_lines m texts e = rw e (
      visit-map_values (write_all W) (write_all W) (λ t rest. t ++ rest)
        (λ p rest. ◌then_do◌ W p rest) [] (λ t rest. sym (write_all-append W t rest)) texts)
