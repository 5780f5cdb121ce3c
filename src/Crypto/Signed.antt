-- ===== src/Crypto/Signed.antt =====
-- What a signature covers: different records, and different key bindings, are different messages.
use molia.Prelude.{
  ℕ, ◌+◌, ◌<◌, ◌≡◌, refl, sym, ap, ◌∙◌, Bool, true, some, ◌++◌, length, length-append, take, drop,
  take-length-append, drop-length-append, append_split, arith,
}
use molia.Prelude.Words.{Bytes, to_be, u64_mod, be_value, be_value-to_be, length-to_be}
use molia.Types.{Key}
use molia.Crypto.{record_bytes, binding_message, bind_tag, Identity, to_bytes, identity_from_bytes}

word_injective : (m n : ℕ) → m < u64_mod → n < u64_mod → to_be 8 m ≡ to_be 8 n → m ≡ n
word_injective m n hm hn e =
    sym (be_value-to_be 8 m (omega arith)) ∙ ap be_value e ∙ be_value-to_be 8 n (omega arith)

-- Two records with 32-byte keys and 64-bit numbers have the same signed bytes only if they agree in
-- their key, value, sequence number, time to live and start.
pub record_bytes-injective :
    (key key' : Key) (value value' : Bytes) (sequence sequence' ttl ttl' nb nb' : ℕ)
    → length key ≡ 32
    → length key' ≡ 32
    → (sequence < u64_mod)
      × (sequence' < u64_mod)
      × (ttl < u64_mod)
      × (ttl' < u64_mod)
      × (nb < u64_mod)
      × (nb' < u64_mod)
    → record_bytes key value sequence ttl nb ≡ record_bytes key' value' sequence' ttl' nb'
    → (key ≡ key') × (value ≡ value') × (sequence ≡ sequence') × (ttl ≡ ttl') × (nb ≡ nb')
unfolding record_bytes
record_bytes-injective key key' value value' s s' t t' n n' hk hk' (b₁, b₂, b₃, b₄, b₅, b₆) e =
    let (keys, after) = append_split key _ key' _ (hk ∙ sym hk') e in
    let same_length : length value ≡ length value' =
      omega (arith, ap length after, tail_length value s t n, tail_length value' s' t' n') in
    let (values, words) = append_split value _ value' _ same_length after in
    let (first, more) =
      append_split (to_be 8 s) _ (to_be 8 s') _ (length-to_be 8 s ∙ sym (length-to_be 8 s'))
        words in
    let (second, third) =
      append_split (to_be 8 t) _ (to_be 8 t') _ (length-to_be 8 t ∙ sym (length-to_be 8 t')) more in
    (
      keys,
      values,
      word_injective s s' b₁ b₂ first,
      word_injective t t' b₃ b₄ second,
      word_injective n n' b₅ b₆ third,
    )
  where
    tail_length :
        (v : Bytes) (x y z : ℕ)
        → length (v ++ (to_be 8 x ++ (to_be 8 y ++ to_be 8 z))) ≡ length v + 24
    tail_length v x y z = omega (
      arith,
      length-append v (to_be 8 x ++ (to_be 8 y ++ to_be 8 z)),
      length-append (to_be 8 x) (to_be 8 y ++ to_be 8 z),
      length-append (to_be 8 y) (to_be 8 z),
      length-to_be 8 x,
      length-to_be 8 y,
      length-to_be 8 z,
    )

-- A binding signature of a 32-byte Ed25519 key and some X25519 key is about no other pair of keys.
pub binding_message-injective :
    (pk pk' wg wg' : Bytes)
    → length pk ≡ 32
    → length pk' ≡ 32
    → binding_message pk wg ≡ binding_message pk' wg'
    → (pk ≡ pk') × (wg ≡ wg')
unfolding binding_message
binding_message-injective pk pk' wg wg' h h' e =
    append_split pk wg pk' wg' (h ∙ sym h')
      (append_split bind_tag (pk ++ wg) bind_tag (pk' ++ wg') refl e).1

-- The 64 bytes that an identity is written as are read back as that identity, when its seed has 32
-- bytes and is one that the key library accepts.
pub from_bytes-to_bytes :
    (secret_key : Bytes → Bool) (i : Identity)
    → length i.seed ≡ 32
    → secret_key i.seed ≡ true
    → identity_from_bytes secret_key (to_bytes i) ≡ some i
unfolding identity_from_bytes to_bytes
from_bytes-to_bytes secret_key i size accepted =
    let head : take 32 (i.seed ++ i.wg_secret) ≡ i.seed =
      ap (λ n. take n (i.seed ++ i.wg_secret)) (sym size) ∙ take-length-append i.seed i.wg_secret in
    let back : drop 32 (i.seed ++ i.wg_secret) ≡ i.wg_secret =
      ap (λ n. drop n (i.seed ++ i.wg_secret)) (sym size) ∙ drop-length-append i.seed i.wg_secret in
    rw (head, back, accepted) refl
