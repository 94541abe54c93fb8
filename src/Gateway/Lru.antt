-- ===== src/Gateway/Lru.antt =====
-- `ByteLru` of packages/gateway/src/lru.ts. The entries stand in the Map's order, the least recently
-- used first.
pub mod Order
pub mod Invariant
pub mod Reads
use ordspv.Common.{
  ℕ, ◌+◌, ◌-◌, ◌&&◌, List, [], ◌∷◌, Option, none, some, leb, ltb, ◌==◌, if◌then◌else◌, length,
}
use ordspv.Bytes.Hex.{bytes_equal}
use ordspv.Dict.{Dict, lookup, delete, put}

pub record CachedResponse : Type 0 where
  pub status : ℕ
  pub headers : Dict (List ℕ)
  pub body : List ℕ

pub record ByteLru : Type 0 where
  pub entries : Dict CachedResponse
  pub bytes : ℕ
  pub hits : ℕ
  pub misses : ℕ
  pub max_bytes : ℕ
  pub max_entry_bytes : ℕ

unfoldable pub new : ℕ → ℕ → ByteLru
new max_bytes max_entry_bytes = record {
  entries = [];
  bytes = 0;
  hits = 0;
  misses = 0;
  max_bytes = max_bytes;
  max_entry_bytes = max_entry_bytes;
}

unfoldable pub refresh : List ℕ → ByteLru → Option CachedResponse → ByteLru × Option CachedResponse
refresh key lru none = (record lru { misses = lru.misses + 1 }, none)
refresh key lru (some hit) =
    (record lru { entries = put key hit (delete key lru.entries); hits = lru.hits + 1 }, some hit)

unfoldable pub get : List ℕ → ByteLru → ByteLru × Option CachedResponse
unfolding refresh
get key lru = refresh key lru (lookup key lru.entries)

-- The eviction loop over the entries in their order; it deletes from the map that it runs over, and
-- takes the body's length from the count.
unfoldable pub evict :
    ℕ → List ℕ → Dict CachedResponse → Dict CachedResponse → ℕ → Dict CachedResponse × ℕ
evict max key [] entries bytes = (entries, bytes)
evict max key ((oldest, entry) ∷ later) entries bytes =
    let next = evict max key later (delete oldest entries) (bytes - length entry.body) in
    if leb bytes max
    then (entries, bytes)
    else (if bytes_equal oldest key && (length entries == 1) then (entries, bytes) else next)

-- The map and the count without the entry that a key had.
unfoldable pub forget : List ℕ → ByteLru → Option CachedResponse → Dict CachedResponse × ℕ
forget key lru none = (lru.entries, lru.bytes)
forget key lru (some existing) = (delete key lru.entries, lru.bytes - length existing.body)

unfoldable pub set : List ℕ → CachedResponse → ByteLru → ByteLru
unfolding evict forget
set key value lru =
    let (others, left) = forget key lru (lookup key lru.entries) in
    let entries = put key value others in
    let (kept, bytes) = evict lru.max_bytes key entries entries (left + length value.body) in
    if ltb lru.max_entry_bytes (length value.body)
    then lru
    else record lru { entries = kept; bytes = bytes }
