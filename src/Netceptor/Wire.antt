-- ===== src/Netceptor/Wire.antt =====
-- The wire format of data messages (netceptor.go): name hashes and translation to and from bytes.
pub mod Names
pub mod RoundTrip
pub mod Examples
use receptor.Prelude.{
  ℕ, zero, suc, ◌+◌, ◌-◌, ◌*◌, ◌/◌, ◌%◌, ◌^◌, Bool, ◌&&◌, Option, none, some, List, [], ◌∷◌, ◌++◌,
  ◌==◌, ltb, leb, if◌then◌else◌, length, take, drop, replicate, Bytes, codes, same,
}
use receptor.Netceptor.State.{Netceptor, External, MessageData}

-- What `strings.EqualFold` folds into the letters of "localhost": upper case, and U+017F for s.
unfoldable pub fold : Bytes → Bytes
fold [] = []
fold (a ∷ []) = (if leb b'A' a && leb a b'Z' then a + 32 else a) ∷ []
fold (a ∷ b ∷ rest) =
    let long_s = b's' ∷ fold rest in
    let plain = (if leb b'A' a && leb a b'Z' then a + 32 else a) ∷ fold (b ∷ rest) in
    if a == 0xc5 && b == 0xbf then long_s else plain

abbrev pub localhost : Bytes
localhost = codes "localhost"

unfoldable pub is_localhost : Bytes → Bool
unfolding fold
is_localhost name = same (fold name) localhost

-- The replacement that `AddNameHash` and `SendMessageWithHopsToLive` make.
unfoldable pub resolve : Bytes → Bytes → Bytes
unfolding is_localhost
resolve node_id name = if is_localhost name then node_id else name

unfoldable pub find_hash : ℕ → List (ℕ × Bytes) → Option Bytes
find_hash h [] = none
find_hash h ((k, v) ∷ table) = if k == h then some v else find_hash h table

-- The first name of a hash stays.
pub add_hash : ℕ → Bytes → List (ℕ × Bytes) → List (ℕ × Bytes)
unfolding find_hash
add_hash h name table = elim (find_hash h table) [ none ↦ (h, name) ∷ table | some _ ↦ table ]

-- `AddNameHash`: the new table and the hash.
unfoldable pub add_name_hash : External → Bytes → Netceptor → Netceptor × ℕ
unfolding add_hash resolve
add_name_hash x name s =
    let name' = resolve s.node_id name in
    (record s { name_hashes = add_hash (x.hash name') name' s.name_hashes }, x.hash name')

-- `GetNameFromHash`; `none` is the error "hash not found".
unfoldable pub get_name_from_hash : ℕ → Netceptor → Option Bytes
get_name_from_hash h s = find_hash h s.name_hashes

-- `binary.Write` and `Uint64`, big endian, over `n` bytes.
pub big_endian : ℕ → ℕ → Bytes
big_endian zero h = []
big_endian (suc n) h = (h / 256 ^ n % 256) ∷ big_endian n h

pub from_big_endian : ℕ → Bytes → ℕ
from_big_endian acc [] = acc
from_big_endian acc (b ∷ bs) = from_big_endian (acc * 256 + b) bs

-- `stringFromFixedLenBytes`: the loop that walks back over the zero bytes.
pub string_from_fixed_len_bytes : Bytes → Bytes
string_from_fixed_len_bytes [] = []
string_from_fixed_len_bytes (b ∷ bs) = elim (string_from_fixed_len_bytes bs) [
  | [] ↦ if b == 0 then [] else b ∷ []
  | c ∷ cs ↦ b ∷ c ∷ cs
]

-- `fixedLenBytesFromString`: `copy` stops at the shorter of the two.
pub fixed_len_bytes_from_string : Bytes → ℕ → Bytes
fixed_len_bytes_from_string s l = take l s ++ replicate (l - length s) 0

abbrev pub slice : ℕ → ℕ → Bytes → Bytes
slice i j bytes = take (j - i) (drop i bytes)

abbrev pub second : Bytes → ℕ
second (a ∷ b ∷ rest) = b
second _ = 0

-- `translateDataToMessage`; `none` stands for its errors, too short a message and unknown hashes.
unfoldable pub translate_data_to_message : Bytes → Netceptor → Option MessageData
unfolding get_name_from_hash from_big_endian string_from_fixed_len_bytes
translate_data_to_message bytes s =
    if ltb (length bytes) 36
    then none
    else elim (get_name_from_hash (from_big_endian 0 (slice 4 12 bytes)) s) [
      | none ↦ none
      | some from_node ↦ elim (get_name_from_hash (from_big_endian 0 (slice 12 20 bytes)) s) [
        | none ↦ none
        | some to_node ↦ some (record {
          from_node = from_node;
          from_service = string_from_fixed_len_bytes (slice 20 28 bytes);
          to_node = to_node;
          to_service = string_from_fixed_len_bytes (slice 28 36 bytes);
          hops_to_live = second bytes;
          content = drop 36 bytes;
        })
      ]
    ]

-- `translateDataFromMessage`: the hashes of both names enter the node's table on the way.
unfoldable pub translate_data_from_message : External → MessageData → Netceptor → Netceptor × Bytes
unfolding add_name_hash big_endian fixed_len_bytes_from_string
translate_data_from_message x msg s =
    let (s', from_hash) = add_name_hash x msg.from_node s in
    let (s'', to_hash) = add_name_hash x msg.to_node s' in
    (
      s'',
      (0 ∷ msg.hops_to_live ∷ 0 ∷ 0 ∷ [])
          ++ (big_endian 8 from_hash
              ++ (big_endian 8 to_hash
                  ++ (fixed_len_bytes_from_string msg.from_service 8
                      ++ (fixed_len_bytes_from_string msg.to_service 8 ++ msg.content)))),
    )
