-- ===== src/Memory/Cache.antt =====
-- Memoria/src/cache.c: the cache of pages. Each entry has a slot of its own in the block of the
-- contents, which it keeps; the slot also tells which entry a pointer means. Reading past the end of
-- a page that is given is `none`.
pub mod Flush
use esthe_r.Base.{ℕ, zero, suc, ◌+◌, Bool, true, false, ◌&&◌, Option, none, some, ◌>>=◌}
use esthe_r.Base.{
  List, [], ◌∷◌, map, get_elem?, set, take, length, replicate, leb, ◌==◌, if◌then◌else◌,
}
use esthe_r.Base.Int.{ℤ, negsuc, eq_ℤ}
use esthe_r.Commons.{CommonsList}

pub record CacheEntry : Type 0 where
  pub pid : ℤ
  pub pageno : ℤ
  pub slot : ℕ

-- The contents are one page for each slot.
pub record Cache : Type 0 where
  pub enabled : Bool
  pub mepp : ℕ
  pub s_entry : ℕ
  pub content : List (List ℕ)
  pub entries : List CacheEntry

abbrev pub no_process : ℤ
no_process = negsuc 0

abbrev pub cleared : CacheEntry → CacheEntry
cleared e = record e { pid = no_process; pageno = no_process }

-- The entry of a slot, with another process and page.
unfoldable pub retag : ℕ → ℤ → ℤ → List CacheEntry → List CacheEntry
retag slot pid pageno [] = []
retag slot pid pageno (e ∷ es) =
    (if e.slot == slot then record e { pid = pid; pageno = pageno } else e)
    ∷ retag slot pid pageno es

abbrev pub holds : ℤ → ℤ → CacheEntry → Bool
holds pid pageno e = eq_ℤ e.pid pid && eq_ℤ e.pageno pageno

-- The index that the iteration of cache_read leaves: that of the last entry that holds the page.
unfoldable pub last_index : ℤ → ℤ → ℕ → Option ℕ → List CacheEntry → Option ℕ
last_index pid pageno i index [] = index
last_index pid pageno i index (e ∷ es) =
    last_index pid pageno (suc i) (if holds pid pageno e then some i else index) es

module _ (lib : CommonsList) where
  open lib use {list_create, list_add, list_get, list_remove, list_size, list_find, list_filter}

  -- The loop of cache_create, from entry `i` on.
  unfoldable pub add_entries : ℕ → ℕ → List CacheEntry → List CacheEntry
  add_entries zero i es = es
  add_entries (suc n) i es =
      add_entries n (suc i)
        (list_add es (record { pid = no_process; pageno = no_process; slot = i }))

  -- The other fields keep what they hold when the cache is not used.
  unfoldable pub cache_create : ℕ → ℕ → ℕ → Cache → Cache
  cache_create n_entries s_entry max_per_prog c =
      if n_entries == 0 then record c { enabled = false } else record {
        enabled = true;
        mepp = max_per_prog;
        s_entry = s_entry;
        content = replicate n_entries (replicate s_entry 0);
        entries = add_entries n_entries 0 list_create;
      }

  unfoldable pub store_page : ℤ → ℤ → List ℕ → Cache → CacheEntry → Option (Bool × Cache)
  store_page pid pageno page c e =
      if leb c.s_entry (length page)
      then some (
        true,
        record c {
          content = set c.content e.slot (take c.s_entry page);
          entries = retag e.slot pid pageno c.entries;
        },
      )
      else none

  -- The entry that is overwritten when the page has none: a free one, or else the first.
  unfoldable pub victim : List CacheEntry → Option CacheEntry
  victim es = elim (list_find es (λ e. eq_ℤ e.pid no_process)) [
    | none ↦ list_get es 0
    | some e ↦ some e
  ]

  unfoldable pub cache_write : ℤ → ℤ → List ℕ → Cache → Option (Bool × Cache)
  cache_write pid pageno page c =
      let p_entries = list_filter c.entries (λ e. eq_ℤ e.pid pid) in
      let store = store_page pid pageno page c in
      if c.enabled
      then elim (list_find p_entries (λ e. eq_ℤ e.pageno pageno)) [
        | some e ↦ store e
        | none ↦
            if list_size p_entries == c.mepp then some (false, c) else (victim c.entries >>= store)
      ]
      else some (false, c)

  -- The entry found goes to the end of the list.
  unfoldable pub renewed :
      Option CacheEntry × List CacheEntry → Cache → Option (Option (List ℕ) × Cache)
  renewed (found, es) c = do
    e ← found
    page ← get_elem? c.content e.slot
    some (some page, record c { entries = list_add es e })

  -- The page, or NULL.
  unfoldable pub cache_read : ℤ → ℤ → Cache → Option (Option (List ℕ) × Cache)
  cache_read pid pageno c =
      if c.enabled
      then elim (last_index pid pageno 0 none c.entries) [
        | none ↦ some (none, c)
        | some i ↦ renewed (list_remove c.entries i) c
      ]
      else some (none, c)

unfoldable pub cache_flush : Cache → Cache
cache_flush c = if c.enabled then record c { entries = map cleared c.entries } else c

unfoldable pub cache_destroy : Cache → Cache
cache_destroy c = if c.enabled then record c { enabled = false; content = []; entries = [] } else c
