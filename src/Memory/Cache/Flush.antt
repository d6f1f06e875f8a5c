-- ===== src/Memory/Cache/Flush.antt =====
-- What cache_flush, cache_read and cache_write of Memoria/src/cache.c do to the entries.
use esthe_r.Base.{false, if◌then◌else◌}
use esthe_r.Base.{ℕ, suc, ◌≤◌, ◌<◌, ◌≡◌, refl, sym, ap, ◌≢◌, inl, inr, Bool, true}
use esthe_r.Base.{Option, none, some, List, [], ◌∷◌, length}
use esthe_r.Base.{leb, ◌==◌, Bool-cases, Option-cases, arith}
use esthe_r.Base.{map}
use esthe_r.Base.Int.{ℤ, eq_ℤ, eq_ℤ_apart}
use esthe_r.Commons.{CommonsList}
use esthe_r.Memory.Cache.{
  CacheEntry, Cache, no_process, cleared, retag, last_index, store_page, victim, cache_write,
  cache_read, cache_flush,
}

last_index-cleared :
    (pid pageno : ℤ) (i : ℕ) (es : List CacheEntry)
    → pid ≢ no_process
    → last_index pid pageno i none (map cleared es) ≡ none
unfolding last_index
last_index-cleared pid pageno i [] h = refl
last_index-cleared pid pageno i (e ∷ es) h =
    rw (last_index, eq_ℤ_apart no_process pid (λ w. h (sym w)))
      (last_index-cleared pid pageno (suc i) es h)

flushed :
    (c : Cache) → c.enabled ≡ true → cache_flush c ≡ record c { entries = map cleared c.entries }
unfolding cache_flush
flushed c t = rw t refl

not_flushed : (c : Cache) → c.enabled ≡ false → cache_flush c ≡ c
unfolding cache_flush
not_flushed c t = rw t refl

choose {ℓ} : {A : Type ℓ} (b : Bool) (x y : A) → b ≡ false → (if b then x else y) ≡ y
choose true x y h = cc
choose false x y h = refl

both {ℓ} : {A : Type ℓ} (b : Bool) (x : A) → (if b then x else x) ≡ x
both true x = refl
both false x = refl

read_nothing :
    (lib : CommonsList) (d : Cache) (pid pageno : ℤ)
    → last_index pid pageno 0 none d.entries ≡ none
    → cache_read lib pid pageno d ≡ some (none, d)
unfolding cache_read
read_nothing lib d pid pageno e = rw e (both d.enabled (some (none, d)))

idle :
    (lib : CommonsList) (d : Cache) (pid pageno : ℤ)
    → d.enabled ≡ false
    → cache_read lib pid pageno d ≡ some (none, d)
unfolding cache_read
idle lib d pid pageno e = choose d.enabled _ _ e

-- For every process number but the one that marks a free entry: after cache_flush, cache_read finds
-- no page, and changes nothing.
pub cache_read-cache_flush :
    (lib : CommonsList) (c : Cache) (pid pageno : ℤ)
    → pid ≢ no_process
    → cache_read lib pid pageno (cache_flush c) ≡ some (none, cache_flush c)
cache_read-cache_flush lib c pid pageno h = elim (Bool-cases c.enabled) [
  | inl t ↦ rw (flushed c t) (
      read_nothing lib (record c { entries = map cleared c.entries }) pid pageno
        (last_index-cleared pid pageno 0 c.entries h))
  | inr t ↦ rw (not_flushed c t) (idle lib c pid pageno t)
]

-- The slots, in the order of the list.
abbrev pub slots : List CacheEntry → List ℕ
slots es = map (λ e. e.slot) es

slots-retag :
    (slot : ℕ) (pid pageno : ℤ) (es : List CacheEntry) → slots (retag slot pid pageno es) ≡ slots es
unfolding retag
slots-retag slot pid pageno [] = refl
slots-retag slot pid pageno (e ∷ es) = elim (Bool-cases (e.slot == slot)) [
  | inl t ↦ rw t (ap (◌∷◌ e.slot) (slots-retag slot pid pageno es))
  | inr t ↦ rw t (ap (◌∷◌ e.slot) (slots-retag slot pid pageno es))
]

module _ (lib : CommonsList) (c : Cache) (pid pageno : ℤ) (page : List ℕ) where
  open lib use {list_find, list_filter, list_size, list_get, get_lem}

  -- A result that keeps the order of the slots.
  abbrev Keeps : Option (Bool × Cache) → Type 0
  Keeps o = (r : Bool × Cache) × (o ≡ some r) × (slots r.1.entries ≡ slots c.entries)

  store_page-Keeps :
      c.s_entry ≤ length page → (e : CacheEntry) → Keeps (store_page lib pid pageno page c e)
  unfolding store_page
  store_page-Keeps whole e =
      let t : leb c.s_entry (length page) ≡ true = ground arith in
      rw t (_, refl, slots-retag e.slot pid pageno c.entries)

  first_entry : (es : List CacheEntry) → 0 < length es → (e : CacheEntry) × (list_get es 0 ≡ some e)
  first_entry [] h = absurd (omega arith)
  first_entry (e ∷ es) h = (e, get_lem (e ∷ es) 0)

  victim-exists :
      (es : List CacheEntry) → 0 < length es → (e : CacheEntry) × (victim lib es ≡ some e)
  unfolding victim
  victim-exists es h = elim (Option-cases (list_find es (λ e. eq_ℤ e.pid no_process))) [
    | inl t ↦ rw (victim, t) (first_entry es h)
    | inr (e, t) ↦ rw (victim, t) (e, refl)
  ]

  -- For a page of the size of the entries or more and a cache with an entry: cache_write returns,
  -- and the entries stay in their order, those just written included.
  pub slots-cache_write :
      c.s_entry ≤ length page
      → 0 < length c.entries
      → (r : Bool × Cache) × (cache_write lib pid pageno page c ≡ some r)
        × (slots r.1.entries ≡ slots c.entries)
  unfolding cache_write
  slots-cache_write whole some_entry = elim (Bool-cases c.enabled) [
    | inr t ↦ rw t (_, refl, refl)
    | inl t ↦
        elim (Option-cases
          (list_find (list_filter c.entries (λ e. eq_ℤ e.pid pid)) (λ e. eq_ℤ e.pageno pageno))) [
            | inr (e, f) ↦ rw (t, f) (store_page-Keeps whole e)
            | inl f ↦
                elim (Bool-cases
                  (list_size (list_filter c.entries (λ e. eq_ℤ e.pid pid)) == c.mepp)) [
                    | inl full ↦ rw (t, f, full) (_, refl, refl)
                    | inr more ↦
                        let (e, v) = victim-exists c.entries some_entry in
                        rw (t, f, more, v) (store_page-Keeps whole e)
                  ]
          ]
  ]
