-- ===== src/Register/Order.antt =====
-- frontend/src/utils/registerSort.ts: the order of the entries of a register.
--
-- `localeCompare` with numeric collation is the browser's, and a parameter here.
use antimoney.Prelude.{Ordering, String, compare_text}
use antimoney.Prelude.Sorting.{then_by, IsConsistent, then_by-IsConsistent}
use antimoney.Prelude.TextOrder.{compare_text-IsConsistent}
use antimoney.Types.{RegisterEntry}

module _ (locale_compare : String → String → Ordering) where
  -- A missing custom id is the empty text, as `a.custom_id || ''` has it.
  unfoldable pub compare_entries : RegisterEntry → RegisterEntry → Ordering
  compare_entries a b =
      then_by (compare_text a.post_date b.post_date) (locale_compare a.custom_id b.custom_id)

  -- Where `localeCompare` is a consistent comparator, so is the order of the register: it is
  -- antisymmetric and transitive, so that `sort` is specified for it.
  pub compare_entries-IsConsistent : IsConsistent locale_compare → IsConsistent compare_entries
  unfolding compare_entries
  compare_entries-IsConsistent h =
      then_by-IsConsistent (λ a b. compare_text a.post_date b.post_date)
        (λ a b. locale_compare a.custom_id b.custom_id)
        (record {
          swap = λ a b. compare_text-IsConsistent.swap a.post_date b.post_date;
          trans = λ a b c. compare_text-IsConsistent.trans a.post_date b.post_date c.post_date;
        })
        (record {
          swap = λ a b. h.swap a.custom_id b.custom_id;
          trans = λ a b c. h.trans a.custom_id b.custom_id c.custom_id;
        })
