-- ===== src/Paging/Complete.antt =====
-- The pages of the three lists: how many rows they show, and that they show every row once.
use postbud.Int.{ℤ, pos, clamp-bounds}
use postbud.Paging.Crawl.{crawl, keyset_page, crawl-keyset, crawl-congr}
use postbud.Paging.Order.{Distinct, newer, by_id, by_time}
use postbud.Paging.Pages.{
  non_empty, MessagesQuery, message_filter, messages_page, messages_after, SuppressionsQuery,
  suppressions_page, suppressions_after, bounces_page,
}
use postbud.Paging.{
  page_size, paginate, MessageRow, time_key, messages, suppressions, bounces, passes, join_tenants,
  SuppressionRow, suppression_id, suppression_row, suppression_passes, bounce_id, bounce_row,
}
use postbud.Prelude.Rows.{length-take}
use postbud.Prelude.{
  ℕ, ◌≤◌, ◌<◌, ◌≡◌, refl, ◌∙◌, Bool, List, map, Option, none, some, arith, ltb, select, sort_by,
  length, or_else, Bool-cases, inl, inr,
}
use postbud.Store.{Db, BounceReport}
use postbud.Tenants.{TenantRow}
use postbud.Text.{Str}

page_size-bounds : (requested : Option ℤ) → (1 ≤ page_size requested) × (page_size requested ≤ 100)
unfolding page_size
page_size-bounds requested = clamp-bounds (or_else requested (pos 10)) 1 100 (omega arith)

length-paginate :
    {T C : Type 0} (items : List T) (limit : ℕ) (cursor : T → C)
    → length (paginate items limit cursor).items ≤ limit
unfolding paginate
length-paginate items limit cursor = elim (Bool-cases (ltb limit (length items))) [
  | inl e ↦ rw e (length-take limit items)
  | inr e ↦ rw e (ground arith)
]

limit-paginate :
    {T C : Type 0} (items : List T) (limit : ℕ) (cursor : T → C)
    → (paginate items limit cursor).limit ≡ limit
unfolding paginate
limit-paginate items limit cursor = ground arith

-- Whatever number of rows a request asks for, even a negative one, the page states the limit that was
-- applied, which is from 1 to 100, and holds no more rows than that.
pub messages_page-bounds :
    (ilike : Str → Str → Bool) (tenants : List TenantRow) (db : Db) (q : MessagesQuery)
    → ((messages_page ilike tenants db q).limit ≡ page_size q.limit)
      × ((1 ≤ page_size q.limit)
          × ((page_size q.limit ≤ 100)
              × (length (messages_page ilike tenants db q).items ≤ page_size q.limit)))
unfolding messages_page
messages_page-bounds ilike tenants db q =
    let b : (1 ≤ page_size q.limit) × (page_size q.limit ≤ 100) = page_size-bounds q.limit in
    (
      limit-paginate (messages ilike tenants db (message_filter q)) (page_size q.limit) time_key,
      (
        b.0,
        (
          b.1,
          length-paginate (messages ilike tenants db (message_filter q)) (page_size q.limit)
              time_key,
        ),
      ),
    )

abbrev pub filtered : (Str → Str → Bool) → List TenantRow → Db → MessagesQuery → List MessageRow
filtered ilike tenants db q =
    select (passes ilike (message_filter q)) (join_tenants tenants db.messages)

messages-keyset :
    (ilike : Str → Str → Bool) (tenants : List TenantRow) (db : Db) (q : MessagesQuery)
    (c : Option (ℕ × ℕ))
    → messages_page ilike tenants db (messages_after q c)
      ≡ keyset_page by_time time_key (filtered ilike tenants db q) (page_size q.limit) c
unfolding messages_page messages
messages-keyset ilike tenants db q none = refl
messages-keyset ilike tenants db q (some (before, before_id)) = refl

-- Who follows the cursors of the message list from its first page on sees every message that passes
-- the filter, once and the newest first, if no two of them have the same time and id.
pub crawl-messages_page :
    (ilike : Str → Str → Bool) (tenants : List TenantRow) (db : Db) (q : MessagesQuery)
    → Distinct by_time time_key (filtered ilike tenants db q)
    → (fuel : ℕ) → length (filtered ilike tenants db q) < fuel
    → crawl (λ c. messages_page ilike tenants db (messages_after q c)) fuel none
      ≡ sort_by (newer by_time time_key) (filtered ilike tenants db q)
crawl-messages_page ilike tenants db q d fuel h =
    let rows = filtered ilike tenants db q in
    let b : (1 ≤ page_size q.limit) × (page_size q.limit ≤ 100) = page_size-bounds q.limit in
    crawl-congr by_time time_key (λ c. messages_page ilike tenants db (messages_after q c))
      (keyset_page by_time time_key rows (page_size q.limit)) (messages-keyset ilike tenants db q)
      fuel none
    ∙ crawl-keyset by_time time_key rows (page_size q.limit) d b.0 (omega (arith, b.1)) fuel h

abbrev suppressed_rows :
    (Str → Str → Bool) → List TenantRow → Db → SuppressionsQuery → List SuppressionRow
suppressed_rows ilike tenants db q =
    select (suppression_passes ilike (non_empty q.address) q.include_removed)
      (map (suppression_row tenants) db.suppressions)

suppressions-keyset :
    (ilike : Str → Str → Bool) (tenants : List TenantRow) (db : Db) (q : SuppressionsQuery)
    (c : Option ℕ)
    → suppressions_page ilike tenants db (suppressions_after q c)
      ≡ keyset_page by_id suppression_id (suppressed_rows ilike tenants db q) (page_size q.limit) c
unfolding suppressions_page suppressions
suppressions-keyset ilike tenants db q c = refl

-- The same of the list of suppressions, in the order of the ids.
pub crawl-suppressions_page :
    (ilike : Str → Str → Bool) (tenants : List TenantRow) (db : Db) (q : SuppressionsQuery)
    → Distinct by_id suppression_id (suppressed_rows ilike tenants db q)
    → (fuel : ℕ) → length (suppressed_rows ilike tenants db q) < fuel
    → crawl (λ c. suppressions_page ilike tenants db (suppressions_after q c)) fuel none
      ≡ sort_by (newer by_id suppression_id) (suppressed_rows ilike tenants db q)
crawl-suppressions_page ilike tenants db q d fuel h =
    let rows = suppressed_rows ilike tenants db q in
    let b : (1 ≤ page_size q.limit) × (page_size q.limit ≤ 100) = page_size-bounds q.limit in
    crawl-congr by_id suppression_id
      (λ c. suppressions_page ilike tenants db (suppressions_after q c))
      (keyset_page by_id suppression_id rows (page_size q.limit))
      (suppressions-keyset ilike tenants db q) fuel none
    ∙ crawl-keyset by_id suppression_id rows (page_size q.limit) d b.0 (omega (arith, b.1)) fuel h

bounces-keyset :
    (reports : List (ℕ × BounceReport)) (requested : Option ℤ) (c : Option ℕ)
    → bounces_page reports c requested
      ≡ keyset_page by_id bounce_id (map bounce_row reports) (page_size requested) c
unfolding bounces_page bounces
bounces-keyset reports requested c = refl

-- Who follows the cursors of the bounce list from its first page on, with any number of rows per page,
-- sees every bounce once, the newest first, if no two of them have the same id.
pub crawl-bounces_page :
    (reports : List (ℕ × BounceReport)) (requested : Option ℤ)
    → Distinct by_id bounce_id (map bounce_row reports)
    → (fuel : ℕ) → length (map bounce_row reports) < fuel
    → crawl (λ c. bounces_page reports c requested) fuel none
      ≡ sort_by (newer by_id bounce_id) (map bounce_row reports)
crawl-bounces_page reports requested d fuel h =
    let rows = map bounce_row reports in
    let b : (1 ≤ page_size requested) × (page_size requested ≤ 100) = page_size-bounds requested in
    crawl-congr by_id bounce_id (λ c. bounces_page reports c requested)
      (keyset_page by_id bounce_id rows (page_size requested)) (bounces-keyset reports requested)
      fuel none
    ∙ crawl-keyset by_id bounce_id rows (page_size requested) d b.0 (omega (arith, b.1)) fuel h
