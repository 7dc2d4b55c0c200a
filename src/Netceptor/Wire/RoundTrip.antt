-- ===== src/Netceptor/Wire/RoundTrip.antt =====
-- A data message survives the wire.
use receptor.Prelude.{
  ℕ, zero, suc, ◌-◌, ◌^◌, ◌≤◌, ◌<◌, ◌≡◌, refl, sym, ap, ◌∙◌, ◌≢◌, false, some, [], ◌∷◌, ◌++◌, arith,
  length, take, drop, replicate, Bytes, append_assoc, length-append, length-replicate, take-append,
  drop-append,
}
use receptor.Netceptor.State.{Netceptor, External, MessageData}
use receptor.Netceptor.Wire.{
  is_localhost, resolve, get_name_from_hash, big_endian, from_big_endian,
  string_from_fixed_len_bytes, fixed_len_bytes_from_string, translate_data_to_message,
  translate_data_from_message,
}

from_big_endian-big_endian : (h : ℕ) → h < 2 ^ 64 → from_big_endian 0 (big_endian 8 h) ≡ h
unfolding from_big_endian big_endian
from_big_endian-big_endian h p = omega arith

-- The last byte, if there is one, is not zero.
abbrev pub EndsNonzero : Bytes → Type 0
EndsNonzero [] = Unit {0}
EndsNonzero (b ∷ []) = b ≢ 0
EndsNonzero (b ∷ c ∷ cs) = EndsNonzero (c ∷ cs)

string_from-replicate : (k : ℕ) → string_from_fixed_len_bytes (replicate k 0) ≡ []
unfolding string_from_fixed_len_bytes
string_from-replicate zero = refl
string_from-replicate (suc k) = ground (arith, string_from-replicate k)

string_from-append :
    (s : Bytes) (k : ℕ) → EndsNonzero s → string_from_fixed_len_bytes (s ++ replicate k 0) ≡ s
unfolding string_from_fixed_len_bytes
string_from-append [] k h = string_from-replicate k
string_from-append (b ∷ []) k h = ground (arith, string_from-replicate k)
string_from-append (b ∷ c ∷ cs) k h = ground (arith, string_from-append (c ∷ cs) k h)

take_whole : (n : ℕ) (s : Bytes) → length s ≤ n → take n s ≡ s
take_whole zero [] h = refl
take_whole zero (b ∷ s) h = absurd (omega arith)
take_whole (suc n) [] h = refl
take_whole (suc n) (b ∷ s) h = ap (◌∷◌ b) (take_whole n s (omega arith))

-- A service name as it stands in a packet.
abbrev pub padded : Bytes → Bytes
padded s = s ++ replicate (8 - length s) 0

fixed_len-padded : (s : Bytes) → length s ≤ 8 → fixed_len_bytes_from_string s 8 ≡ padded s
unfolding fixed_len_bytes_from_string
fixed_len-padded s h = rw (take_whole 8 s h)

length-padded : (s : Bytes) → length s ≤ 8 → length (padded s) ≡ 8
length-padded s h =
    omega
      (arith, length-append s (replicate (8 - length s) 0), length-replicate (8 - length s) (zero))

-- The two service fields and the content, behind the first 20 bytes.
fields :
    (a b c : Bytes)
    → length a ≡ 8
    → length b ≡ 8
    → (take 8 (a ++ (b ++ c)) ≡ a)
      × (take 8 (drop 8 (a ++ (b ++ c))) ≡ b)
      × (drop 16 (a ++ (b ++ c)) ≡ c)
fields a b c p q = (
  take-append a (b ++ c) 8 (omega arith),
  ap (take 8) (drop-append a (b ++ c) 8 (omega arith)) ∙ take-append b c 8 (omega arith),
  ap (drop 16) (sym (append_assoc a b c))
      ∙ drop-append (a ++ b) c 16 (omega (arith, length-append a b)),
)

-- What `translate_data_to_message` can send and get back.
pub record IsSendable (x : External) (msg : MessageData) : Type 0 where
  pub from_plain : is_localhost msg.from_node ≡ false
  pub to_plain : is_localhost msg.to_node ≡ false
  pub from_fits : x.hash msg.from_node < 2 ^ 64
  pub to_fits : x.hash msg.to_node < 2 ^ 64
  pub from_short : length msg.from_service ≤ 8
  pub to_short : length msg.to_service ≤ 8
  pub from_ends : EndsNonzero msg.from_service
  pub to_ends : EndsNonzero msg.to_service

-- The packet of a sendable message.
translate_from :
    (x : External) (msg : MessageData) (s : Netceptor)
    → IsSendable x msg
    → (translate_data_from_message x msg s).1
      ≡ (0 ∷ msg.hops_to_live ∷ 0 ∷ 0 ∷ [])
        ++ (big_endian 8 (x.hash msg.from_node)
            ++ (big_endian 8 (x.hash msg.to_node)
                ++ (padded msg.from_service ++ (padded msg.to_service ++ msg.content))))
unfolding translate_data_from_message resolve
translate_from x msg s v =
    ground (arith, fixed_len-padded msg.from_service, fixed_len-padded msg.to_service)

translate_to :
    (r : Netceptor) (hops ha hb : ℕ) (n m a b fs ts c : Bytes)
    → ha < 2 ^ 64
    → hb < 2 ^ 64
    → length a ≡ 8
    → length b ≡ 8
    → get_name_from_hash ha r ≡ some n
    → get_name_from_hash hb r ≡ some m
    → string_from_fixed_len_bytes a ≡ fs
    → string_from_fixed_len_bytes b ≡ ts
    → translate_data_to_message
        ((0 ∷ hops ∷ 0 ∷ 0 ∷ []) ++ (big_endian 8 ha ++ (big_endian 8 hb ++ (a ++ (b ++ c)))))
        r
      ≡ some (record {
        from_node = n;
        from_service = fs;
        to_node = m;
        to_service = ts;
        hops_to_live = hops;
        content = c;
      })
unfolding translate_data_to_message big_endian get_name_from_hash
translate_to r hops ha hb n m a b fs ts c pa pb la lb en em ea eb =
    let parts = fields a b c la lb in
    ground (
      arith,
      from_big_endian-big_endian ha pa,
      from_big_endian-big_endian hb pb,
      parts,
      length-append a (b ++ c),
      length-append b c,
    )

-- A message goes over the wire unchanged: what the sender writes for it, the receiver reads as the
-- same message. The conditions: neither node is named "localhost", the service names have at most 8
-- bytes and do not end in a zero byte, the hashes of the node names fit into 64 bits, and in the
-- receiver's table these hashes stand for these names.
pub translate-round_trip :
    (x : External) (msg : MessageData) (s r : Netceptor)
    → IsSendable x msg
    → get_name_from_hash (x.hash msg.from_node) r ≡ some msg.from_node
    → get_name_from_hash (x.hash msg.to_node) r ≡ some msg.to_node
    → translate_data_to_message (translate_data_from_message x msg s).1 r ≡ some msg
translate-round_trip x msg s r v en em = rw (translate_from x msg s v) (
    translate_to r msg.hops_to_live (x.hash msg.from_node) (x.hash msg.to_node) msg.from_node
      msg.to_node (padded msg.from_service) (padded msg.to_service) msg.from_service msg.to_service
      msg.content v.from_fits v.to_fits (length-padded msg.from_service v.from_short)
      (length-padded msg.to_service v.to_short) en em
      (string_from-append msg.from_service _ v.from_ends)
      (string_from-append msg.to_service _ v.to_ends))
