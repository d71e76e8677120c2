-- ===== src/Tests/Streams.antt =====
-- The theorems on byte streams, files and frames at concrete inputs.
use livesh.Prelude.{◌≤◌, ◌≡◌, refl, some, [], ◌∷◌, ◌++◌, arith, codes}
use livesh.Limits.BoundedBytes
use livesh.Limits.BoundedBytes.History
use livesh.Limits.BoundedBytes.History.{append_all-new}
use livesh.Protocol.Frame.{ok, encode_frame, max_frame_len, to_le_bytes}
use livesh.Protocol.Frame.Stream.{encode_all, read_all, read_all-encode_all}
use livesh.Paths.PrivateDir.{
  absent, ensure_private_dir, ensure_runtime_dirs, AllPrivate, runtime_dirs,
  ensure_runtime_dirs-AllPrivate,
}
use livesh.Bridge.InputFilter.{filter_input}
use livesh.Bridge.InputFilter.Chunks.{filter_input-append}
use livesh.Bridge.KeyboardReset.{observe_output}
use livesh.Bridge.KeyboardReset.Detect.{pop, observe_output-split}
use livesh.Tests.Data.{test_codec, test_codec-RoundTrips, test_filter, test_paths}

append_all-new_example :
    ((History.append_all (BoundedBytes.new 3) (codes "ab" ∷ codes "cde" ∷ [])).bytes ≡ codes "cde")
    × (BoundedBytes.len (History.append_all (BoundedBytes.new 3) (codes "ab" ∷ codes "cde" ∷ []))
        ≤ 3)
append_all-new_example = append_all-new 3 (codes "ab" ∷ codes "cde" ∷ [])

read_all-encode_all_example :
    read_all test_codec 2
      ((to_le_bytes 2 ++ codes "hi") ++ (to_le_bytes 1 ++ codes "!") ++ codes "rest")
    ≡ ok (codes "hi" ∷ codes "!" ∷ [], codes "rest")
unfolding encode_all encode_frame max_frame_len to_le_bytes
read_all-encode_all_example =
    read_all-encode_all test_codec test_codec-RoundTrips (codes "hi" ∷ codes "!" ∷ [])
      ((to_le_bytes 2 ++ codes "hi") ++ (to_le_bytes 1 ++ codes "!")) (codes "rest") refl

ensure_runtime_dirs-AllPrivate_example : AllPrivate (λ path. absent) (runtime_dirs test_paths)
unfolding ensure_runtime_dirs ensure_private_dir
ensure_runtime_dirs-AllPrivate_example =
    ensure_runtime_dirs-AllPrivate (λ path. absent) test_paths refl

filter_input-append_example :
    let first = filter_input test_filter (0x1b ∷ codes "[97;1") 100 in
    let next = filter_input first.0 (codes ":3ub") 110 in
    let whole = filter_input test_filter ((0x1b ∷ codes "[97;1") ++ codes ":3ub") 100 in
    (first.1 ++ next.1 ≡ whole.1) × (next.0.pending ≡ whole.0.pending)
filter_input-append_example =
    filter_input-append test_filter (0x1b ∷ codes "[97;1") (codes ":3ub") 100 110
      (600, refl, omega arith) (600, refl, omega arith) (omega arith)

observe_output-split_example :
    (observe_output
      (observe_output test_filter (codes "a" ++ (0x1b ∷ codes "[")) 1000)
      (codes "<1u" ++ codes "b")
      1010).stale_release_until
    ≡ some 1510
observe_output-split_example =
    observe_output-split test_filter (codes "a") (0x1b ∷ codes "[<1u") (codes "b") 0x1b (codes "[")
      b'<' (codes "1u") 1000 1010 (pop (codes "1") refl refl) refl (omega arith)
