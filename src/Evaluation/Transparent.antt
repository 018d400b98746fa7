-- ===== src/Evaluation/Transparent.antt =====
-- A cipher that hides nothing, and random bytes, for the tests.
use himitsu.Prelude.{ℕ, ◌≡◌, refl, none, some, [], ◌∷◌, ◌++◌, length, if◌then◌else◌}
use himitsu.Text.{text_eq, codes}
use himitsu.Crypto.{Bytes, Cipher, IsCipher, LocalMasterKey}
use himitsu.Crypto.Keys.Table.Versions.{text_eq_refl}
use himitsu.Crypto.Envelope.{Randomness}

abbrev pub zeros : Bytes
zeros = 0 ∷ 0 ∷ 0 ∷ 0 ∷ []

-- Sixteen bytes that tell the keys of the tests apart.
abbrev pub tag : Bytes → Bytes
tag [] = zeros ++ zeros ++ zeros ++ zeros
tag (k ∷ key) = zeros ++ zeros ++ zeros ++ 0 ∷ 0 ∷ 0 ∷ k ∷ []

abbrev pub transparent : Cipher
transparent = record {
  seal = λ key nonce aad plaintext. (plaintext, tag key);
  unseal = λ key nonce aad ciphertext auth_tag.
      if text_eq auth_tag (tag key) then some ciphertext else none;
}

tag_length_lem : (key : Bytes) → length (tag key) ≡ 16
tag_length_lem [] = refl
tag_length_lem (k ∷ key) = refl

pub transparent-IsCipher : IsCipher transparent
transparent-IsCipher = record {
  tag_length = λ key nonce aad plaintext. tag_length_lem key;
  unseal-seal = λ key nonce aad plaintext. rw (text_eq_refl (tag key)) refl;
}

abbrev pub master : LocalMasterKey
master = record { id = codes "kek"; key = 9 ∷ [] }

abbrev pub bytes_8 : ℕ → Bytes
bytes_8 n = n ∷ n ∷ n ∷ n ∷ n ∷ n ∷ n ∷ n ∷ []

abbrev pub random : ℕ → Randomness
random n = record {
  data_key = bytes_8 n ++ bytes_8 n ++ bytes_8 n ++ bytes_8 n;
  wrap_nonce = bytes_8 n ++ zeros;
  nonce = bytes_8 n ++ zeros;
}
