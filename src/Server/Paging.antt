-- ===== src/Server/Paging.antt =====
-- backend/internal/services/transaction_service.go: the page of a register that the server sends
-- (`GetAccountRegisterPaged`).
--
-- The query's rows, in the order that they have in this query, are the list `all`, with what the
-- server computes for each (its balance and columns); `LIMIT` and `OFFSET` are `take` and `drop` of
-- it. Two queries may order rows differently that agree in post date, custom id and enter date, so
-- each page has a list of its own. The number of entries before the cursor's date is the argument
-- `count` of `around_page`.
use antimoney.Prelude.{
  ℕ, ◌+◌, ◌-◌, ◌*◌, ◌/◌, List, [], ◌∷◌, length, ltb, leb, take, drop, if◌then◌else◌,
}
use antimoney.Types.{RegisterEntry, RegisterPage}

-- `endOffset`
abbrev pub end_offset : ℕ → List RegisterEntry → ℕ
end_offset offset [] = offset
end_offset offset (e ∷ es) = offset + length es

abbrev pub page_with : ℕ → ℕ → List RegisterEntry → RegisterPage
page_with total offset entries = record {
  entries = entries;
  has_before = ltb 0 offset;
  has_after = ltb (end_offset offset entries + 1) total;
  first_offset = offset;
  last_offset = end_offset offset entries;
  total_count = total;
}

-- The page once the offset and the limit of the query are known.
unfoldable pub query_page : List RegisterEntry → ℕ → ℕ → RegisterPage
query_page all offset limit =
    if ltb 0 limit then page_with (length all) offset (take limit (drop offset all)) else record {
      entries = [];
      has_before = ltb 0 offset;
      has_after = ltb offset (length all);
      first_offset = 0;
      last_offset = 0;
      total_count = length all;
    }

-- "before" an offset: what is left, where that is less than the limit.
unfoldable pub before_page : List RegisterEntry → ℕ → ℕ → RegisterPage
before_page all cursor limit =
    if leb limit cursor then query_page all (cursor - limit) limit else query_page all 0 cursor

-- "after" an offset.
unfoldable pub after_page : List RegisterEntry → ℕ → ℕ → RegisterPage
after_page all cursor limit = query_page all (cursor + 1) limit

-- "around" a date: three quarters of the page stand before it.
unfoldable pub around_page : List RegisterEntry → ℕ → ℕ → RegisterPage
around_page all count limit = query_page all (count - limit * 3 / 4) limit
