-- ===== src/R4kv/Page/Tests.antt =====
-- har/crates/r4kv/src/page.rs and crc32c.rs: known checksums, and the theorems at the header of the tests.
use remora_lab.Base.{false, none, some, ◌≡◌, ◌≢◌, refl, [], ◌∷◌, ◌++◌, arith}
use remora_lab.R4kv.Crc32c.{crc32c}
use remora_lab.R4kv.Crc32c.Detection.{crc32c-change}
use remora_lab.R4kv.Bytes.{le_bytes}
use remora_lab.R4kv.Page.{
  PageHeader, q6, q4, ok, err, payload_checksum_mismatch, to_bytes, pack_page, unpack_page,
  RestoreExpectation, check_restore, generation_rejected,
}
use remora_lab.R4kv.Page.Roundtrip.{Fits, unpack_page-pack_page, unpack_page-changed}

known_vector : crc32c (49 ∷ 50 ∷ 51 ∷ 52 ∷ 53 ∷ 54 ∷ 55 ∷ 56 ∷ 57 ∷ []) ≡ 0xe3069283
unfolding crc32c
known_vector = refl

known_vector_empty : crc32c [] ≡ 0
unfolding crc32c
known_vector_empty = refl

abbrev sample : PageHeader
sample = record {
  prefix_digest = 0xDEADBEEF12345678;
  token_start = 4096;
  token_count = 512;
  pos_start = 4096;
  layer_lo = 3;
  layer_hi = 63;
  k_fmt = q6;
  v_fmt = q4;
  epoch = 7;
  generation = 42;
  payload_len = 3;
  sketch_offset = 1120;
  flags = 0;
}

abbrev expected : RestoreExpectation
expected = record {
  prefix_digest = 0xDEADBEEF12345678;
  token_start = 4096;
  pos_start = 4096;
  layer_lo = 3;
  layer_hi = 63;
  k_fmt = none;
  v_fmt = none;
  generation = some (λ g. false);
}

gate_rejects_generation : check_restore sample expected (1 ∷ 2 ∷ 3 ∷ []) ≡ err generation_rejected
unfolding check_restore
gate_rejects_generation = refl

sample-Fits : Fits sample
sample-Fits = record {
  prefix_digest = omega arith;
  token_start = omega arith;
  token_count = omega arith;
  pos_start = omega arith;
  layer_lo = omega arith;
  layer_hi = omega arith;
  epoch = omega arith;
  generation = omega arith;
  payload_len = omega arith;
  sketch_offset = omega arith;
  flags = omega arith;
}

unpack_page-pack_page_example :
    unpack_page (pack_page sample (1 ∷ 2 ∷ 3 ∷ [])) ≡ ok (sample, 1 ∷ 2 ∷ 3 ∷ [])
unpack_page-pack_page_example = unpack_page-pack_page sample (1 ∷ 2 ∷ 3 ∷ []) sample-Fits refl

crc32c-change_example : crc32c ((1 ∷ []) ++ (2 ∷ 3 ∷ [])) ≢ crc32c ((1 ∷ []) ++ (5 ∷ 3 ∷ []))
crc32c-change_example =
    crc32c-change (1 ∷ []) (3 ∷ []) 2 5 (omega arith) (omega arith) (omega arith)

unpack_page-changed_example :
    unpack_page (
      to_bytes sample
      ++ (((1 ∷ []) ++ (5 ∷ 3 ∷ [])) ++ le_bytes 4 (crc32c ((1 ∷ []) ++ (2 ∷ 3 ∷ [])))))
    ≡ err payload_checksum_mismatch
unpack_page-changed_example =
    unpack_page-changed sample (1 ∷ []) (3 ∷ []) 2 5 sample-Fits refl (omega arith) (omega arith)
      (omega arith)
