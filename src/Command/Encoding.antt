-- ===== src/Command/Encoding.antt =====
-- src/gate0.h: the layout of the packed envelope, its size, and reading it back.
use mathlib.Core.List.{append_assoc}
use gate.Base.{
  sizes, ℕ, ◌<◌, ◌≡◌, ◌∙◌, ap, sym, [], ◌++◌, Bytes, length, take, drop, le_bytes, of_le,
  length-le_bytes, of_le-le_bytes, take-append_of, drop-append_of, pow256,
}
use gate.Command.{
  CommandEnvelope, SignedCommand, encode_envelope, encode_command, decode_envelope, decode_command,
  IsEncodable,
}

-- The envelope takes 326 bytes, on the wire and under the signature.
pub length-encode_envelope :
    (e : CommandEnvelope) → IsEncodable e → length (encode_envelope e) ≡ 326
unfolding encode_envelope
length-encode_envelope e v = simp (sizes, v.sender_32, v.payload_256)

take-number : (w n : ℕ) (rest : Bytes) → n < pow256 w → of_le (take w (le_bytes w n ++ rest)) ≡ n
take-number w n rest h =
    ap of_le (take-append_of (le_bytes w n) rest (length-le_bytes w n)) ∙ of_le-le_bytes w n h

drop-number : (w n : ℕ) (rest : Bytes) → drop w (le_bytes w n ++ rest) ≡ rest
drop-number w n rest = drop-append_of (le_bytes w n) rest (length-le_bytes w n)

-- Reading a buffer that begins with an encoded envelope gives the envelope back.
pub decode-encode_envelope :
    (e : CommandEnvelope) (rest : Bytes)
    → IsEncodable e
    → decode_envelope (encode_envelope e ++ rest) ≡ e
unfolding encode_envelope decode_envelope
decode-encode_envelope e rest v = simp (
  append_assoc,
  drop-number,
  λ (r : Bytes). drop-append_of e.sender_id r v.sender_32,
  λ (r : Bytes). drop-append_of e.payload r v.payload_256,
  λ (r : Bytes). take-append_of e.sender_id r v.sender_32,
  λ (r : Bytes). take-append_of e.payload r v.payload_256,
  λ (r : Bytes). take-number 1 e.version r v.version_u8,
  λ (r : Bytes). take-number 1 e.command_id r v.command_id_u8,
  λ (r : Bytes). take-number 8 e.sequence r v.sequence_u64,
  λ (r : Bytes). take-number 8 e.timestamp_ns r v.timestamp_u64,
  λ (r : Bytes). take-number 4 e.payload_len r v.payload_len_u32,
  λ (r : Bytes). take-number 8 e.issued_at_ns r v.issued_u64,
  λ (r : Bytes). take-number 8 e.expires_at_ns r v.expires_u64,
)

-- A buffer that begins with an encoded command whose fields fit the struct, whatever follows, is
-- read as that command.
pub decode-encode_command :
    (c : SignedCommand) (rest : Bytes)
    → IsEncodable c.envelope
    → length c.signature ≡ 64
    → decode_command (encode_command c ++ rest) ≡ c
unfolding encode_command decode_command
decode-encode_command c rest v s =
    let sig : take 64 (drop 326 (encode_envelope c.envelope ++ (c.signature ++ rest)))
        ≡ c.signature =
      rw
        (drop-append_of (encode_envelope c.envelope) (c.signature ++ rest)
          (length-encode_envelope c.envelope v))
        (take-append_of c.signature rest s) in
    rw (append_assoc (encode_envelope c.envelope) c.signature rest) (λ i. record {
      envelope = decode-encode_envelope c.envelope (c.signature ++ rest) v i;
      signature = sig i;
    })

-- Two well-formed envelopes with the same bytes are the same, so a signature over the bytes is one
-- over every field.
pub encode_envelope-injective :
    (d e : CommandEnvelope)
    → IsEncodable d
    → IsEncodable e
    → encode_envelope d ≡ encode_envelope e
    → d ≡ e
encode_envelope-injective d e v w h =
    sym (decode-encode_envelope d [] v)
    ∙ (ap (λ b. decode_envelope (b ++ [])) h ∙ decode-encode_envelope e [] w)
