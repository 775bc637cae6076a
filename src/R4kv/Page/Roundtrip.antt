-- ===== src/R4kv/Page/Roundtrip.antt =====
-- har/crates/r4kv/src/page.rs: what is packed is unpacked as it was.
use remora_lab.Base.{
  ne_true, ◌≢◌, ◌∷◌, false, ◌≡◌, ◌<◌, refl, some, nat_eq, length, ap, arith, ◌∙◌, ne_false, List,
  sym, ℕ, ◌++◌, ◌+◌, length-append, ltb, ◌-◌, ◌!=◌,
}
use mathlib.Core.List.{append_assoc}
use remora_lab.R4kv.Crc32c.{crc32c}
use remora_lab.R4kv.Bytes.{
  le_bytes, of_le_bytes, word_size, take, get, of_le_bytes-le_bytes, take-append, drop-append, drop,
}
use remora_lab.R4kv.Page.{
  err, refuse_if, ◌>>◌, length_mismatch, payload_checksum_mismatch, Fmt, f16, q8, q6, q4, q3,
  fmt_code, from_u8, PageHeader, unsealed, to_bytes, from_bytes, version, magic, unpack_page, ok,
  pack_page, Restored,
}
use remora_lab.R4kv.Crc32c.Detection.{crc32c-bound, crc32c-change}

-- The numbers of a header fit in their fields.
pub record Fits (h : PageHeader) : Type 0 where
  pub prefix_digest : h.prefix_digest < word_size 8
  pub token_start : h.token_start < word_size 4
  pub token_count : h.token_count < word_size 4
  pub pos_start : h.pos_start < word_size 4
  pub layer_lo : h.layer_lo < word_size 2
  pub layer_hi : h.layer_hi < word_size 2
  pub epoch : h.epoch < word_size 4
  pub generation : h.generation < word_size 4
  pub payload_len : h.payload_len < word_size 8
  pub sketch_offset : h.sketch_offset < word_size 4
  pub flags : h.flags < word_size 2

from_u8-fmt_code : (f : Fmt) → from_u8 (fmt_code f) ≡ some f
unfolding from_u8
from_u8-fmt_code f16 = refl
from_u8-fmt_code q8 = refl
from_u8-fmt_code q6 = refl
from_u8-fmt_code q4 = refl
from_u8-fmt_code q3 = refl

length-to_bytes : (h : PageHeader) → length (to_bytes h) ≡ 96
unfolding to_bytes unsealed
length-to_bytes h = refl

module _ (h : PageHeader) where
  sealed : take 92 (to_bytes h) ≡ take 92 (unsealed h)
  unfolding to_bytes unsealed
  sealed = refl

  checksum : get 4 92 (to_bytes h) ≡ of_le_bytes (le_bytes 4 (crc32c (take 92 (unsealed h))))
  unfolding to_bytes unsealed
  checksum = refl

  read_magic : get 4 0 (to_bytes h) ≡ magic
  unfolding to_bytes unsealed
  read_magic = refl

  read_version : get 2 4 (to_bytes h) ≡ version
  unfolding to_bytes unsealed
  read_version = refl

  read_k_fmt : get 1 32 (to_bytes h) ≡ fmt_code h.k_fmt
  unfolding to_bytes unsealed
  read_k_fmt = omega arith

  read_v_fmt : get 1 33 (to_bytes h) ≡ fmt_code h.v_fmt
  unfolding to_bytes unsealed
  read_v_fmt = omega arith

  module _ (fits : Fits h) where
    read_flags : get 2 6 (to_bytes h) ≡ h.flags
    unfolding to_bytes unsealed
    read_flags = of_le_bytes-le_bytes 2 h.flags fits.flags

    read_prefix_digest : get 8 8 (to_bytes h) ≡ h.prefix_digest
    unfolding to_bytes unsealed
    read_prefix_digest = of_le_bytes-le_bytes 8 h.prefix_digest fits.prefix_digest

    read_token_start : get 4 16 (to_bytes h) ≡ h.token_start
    unfolding to_bytes unsealed
    read_token_start = of_le_bytes-le_bytes 4 h.token_start fits.token_start

    read_token_count : get 4 20 (to_bytes h) ≡ h.token_count
    unfolding to_bytes unsealed
    read_token_count = of_le_bytes-le_bytes 4 h.token_count fits.token_count

    read_pos_start : get 4 24 (to_bytes h) ≡ h.pos_start
    unfolding to_bytes unsealed
    read_pos_start = of_le_bytes-le_bytes 4 h.pos_start fits.pos_start

    read_layer_lo : get 2 28 (to_bytes h) ≡ h.layer_lo
    unfolding to_bytes unsealed
    read_layer_lo = of_le_bytes-le_bytes 2 h.layer_lo fits.layer_lo

    read_layer_hi : get 2 30 (to_bytes h) ≡ h.layer_hi
    unfolding to_bytes unsealed
    read_layer_hi = of_le_bytes-le_bytes 2 h.layer_hi fits.layer_hi

    read_epoch : get 4 34 (to_bytes h) ≡ h.epoch
    unfolding to_bytes unsealed
    read_epoch = of_le_bytes-le_bytes 4 h.epoch fits.epoch

    read_generation : get 4 38 (to_bytes h) ≡ h.generation
    unfolding to_bytes unsealed
    read_generation = of_le_bytes-le_bytes 4 h.generation fits.generation

    read_payload_len : get 8 42 (to_bytes h) ≡ h.payload_len
    unfolding to_bytes unsealed
    read_payload_len = of_le_bytes-le_bytes 8 h.payload_len fits.payload_len

    read_sketch_offset : get 4 50 (to_bytes h) ≡ h.sketch_offset
    unfolding to_bytes unsealed
    read_sketch_offset = of_le_bytes-le_bytes 4 h.sketch_offset fits.sketch_offset

    read_checksum : crc32c (take 92 (to_bytes h)) ≡ get 4 92 (to_bytes h)
    read_checksum =
        ap crc32c sealed
        ∙ sym (checksum ∙ of_le_bytes-le_bytes 4 (crc32c (take 92 (unsealed h))) (crc32c-bound _))

    pub from_bytes-to_bytes : from_bytes (to_bytes h) ≡ ok h
    unfolding from_bytes
    from_bytes-to_bytes =
        rw
          (
            read_magic,
            read_version,
            ne_false (crc32c (take 92 (to_bytes h))) (get 4 92 (to_bytes h)) read_checksum,
            read_k_fmt,
            from_u8-fmt_code h.k_fmt,
            read_v_fmt,
            from_u8-fmt_code h.v_fmt,
            read_flags,
            read_prefix_digest,
            read_token_start,
            read_token_count,
            read_pos_start,
            read_layer_lo,
            read_layer_hi,
            read_epoch,
            read_generation,
            read_payload_len,
            read_sketch_offset,
          )
          refl

-- The tests that come after the header.
abbrev checked : PageHeader → List ℕ → (stored : ℕ) → Restored (PageHeader × List ℕ)
checked h body stored =
    refuse_if (length body != h.payload_len) (length_mismatch h.payload_len (length body))
    >> (refuse_if (crc32c body != stored) payload_checksum_mismatch >> ok (h, body))

unpack_page-checked :
    (buf bytes body : List ℕ) (stored : ℕ) (h : PageHeader)
    → ltb (length buf) 100 ≡ false
    → take 96 buf ≡ bytes
    → from_bytes bytes ≡ ok h
    → take (length buf - 4 - 96) (drop 96 buf) ≡ body
    → get 4 (length buf - 4) buf ≡ stored
    → unpack_page buf ≡ checked h body stored
unfolding unpack_page
unpack_page-checked buf bytes body stored h long e f b s = rw (long, e, f, b, s) refl

module _ (bytes body : List ℕ) (stored : ℕ) (h : PageHeader) (sized : length bytes ≡ 96)
    (fits : stored < 4294967296) (parsed : from_bytes bytes ≡ ok h) where
  abbrev sum : List ℕ
  sum = le_bytes 4 stored

  abbrev whole : List ℕ
  whole = bytes ++ (body ++ sum)

  length-whole : length whole ≡ 96 + (length body + 4)
  length-whole =
      omega (arith, length-append {0} bytes (body ++ sum), length-append {0} body sum, sized)

  stored_sum : get 4 (length whole - 4) whole ≡ stored
  stored_sum =
      ap (λ z. get 4 (length whole - 4) z) (sym (append_assoc bytes body sum))
      ∙ ap (λ z. of_le_bytes (take 4 z))
          (drop-append (length whole - 4) (bytes ++ body) sum
            (omega (arith, length-whole, length-append {0} bytes body, sized)))
      ∙ of_le_bytes-le_bytes 4 stored fits

  -- A page that consists of a header, a body and a stored checksum.
  pub unpack_page-parts : unpack_page whole ≡ checked h body stored
  unpack_page-parts =
      unpack_page-checked whole bytes body stored h (ground (arith, length-whole))
        (take-append 96 bytes (body ++ sum) sized) parsed
        (ap (take (length whole - 4 - 96)) (drop-append 96 bytes (body ++ sum) sized)
          ∙ take-append (length whole - 4 - 96) body sum (omega (arith, length-whole)))
        stored_sum

-- A page that is packed is unpacked as its header and its body, if the numbers of the header fit in their
-- fields and its length is that of the body.
pub unpack_page-pack_page :
    (h : PageHeader) (body : List ℕ)
    → Fits h
    → length body ≡ h.payload_len
    → unpack_page (pack_page h body) ≡ ok (h, body)
unfolding pack_page
unpack_page-pack_page h body fits len =
    unpack_page-parts (to_bytes h) body (crc32c body) h (length-to_bytes h) (crc32c-bound body)
      (from_bytes-to_bytes h fits)
    ∙ rw (ne_false (length body) h.payload_len len, ne_false (crc32c body) (crc32c body) refl) refl

-- A page in which one byte of the body has been changed, at any place, is refused for its checksum.
pub unpack_page-changed :
    (h : PageHeader) (xs ys : List ℕ) (a b : ℕ)
    → Fits h
    → length (xs ++ (a ∷ ys)) ≡ h.payload_len
    → a < 256
    → b < 256
    → a ≢ b
    → unpack_page (to_bytes h ++ ((xs ++ (b ∷ ys)) ++ le_bytes 4 (crc32c (xs ++ (a ∷ ys)))))
      ≡ err payload_checksum_mismatch
unpack_page-changed h xs ys a b fits len k l n =
    unpack_page-parts (to_bytes h) (xs ++ (b ∷ ys)) (crc32c (xs ++ (a ∷ ys))) h (length-to_bytes h)
      (crc32c-bound (xs ++ (a ∷ ys))) (from_bytes-to_bytes h fits)
    ∙ rw
        (
          ne_false (length (xs ++ (b ∷ ys))) h.payload_len
              (length-append {0} xs (b ∷ ys) ∙ sym (length-append {0} xs (a ∷ ys)) ∙ len),
          ne_true (crc32c (xs ++ (b ∷ ys))) (crc32c (xs ++ (a ∷ ys)))
              (λ e. crc32c-change xs ys a b k l n (sym e)),
        )
        refl
