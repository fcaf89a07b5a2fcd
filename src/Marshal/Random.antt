-- ===== src/Marshal/Random.antt =====
-- TPMGetRandom: `to_proto`, and then `MarshalCommand`.
use tpm_fuzzer.Prelude.{
  ℕ, ◌<◌, ◌≤◌, ◌≡◌, ◌∙◌, refl, sym, ap, arith, some, length, le→ltb_false, if◌then◌else◌, none, ok,
  ok-injective, >>=-eq-ok,
}
use tpm_fuzzer.Bytes.{Bytes, to_bytes, big_endian}
use tpm_fuzzer.Proto.{Message}
use tpm_fuzzer.Command.{TpmCommand, proto_header}
use tpm_fuzzer.Commands.{to_proto}
use tpm_fuzzer.Commands.Instance.{Command, base_of}
use tpm_fuzzer.Seeds.{bytes_of}
use tpm_fuzzer.Marshal.{marshal_command_field, marshal_command}
use tpm_fuzzer.Marshal.Tss2.{Mu, IsWireFormat}
use tpm_fuzzer.Marshal.Steps.{max_buffer, call}
use tpm_fuzzer.Marshal.Fields.{Field, fields_of}
use tpm_fuzzer.Marshal.Writes.{Writes}
use tpm_fuzzer.Marshal.Frame.{uint16-Writes}
use tpm_fuzzer.Marshal.Whole.{marshal_command-frame}
use tpm_fuzzer.Marshal.FieldBytes.{to_bytes-ok, last-Writes}
use tpm_fuzzer.Commands.Simple.{get_random, get_random_to_proto}
use tpm_fuzzer.Prelude.{subst, drop, drop-zero, ◌-◌}
use tpm_fuzzer.Bytes.{from_bytes}
use tpm_fuzzer.Bytes.Integers.{length-big_endian, from_bytes-big_endian}
use tpm_fuzzer.Proto.Constants.{cc_get_random}

get_random-ok :
    (req_bytes st : ℕ) (c : Command)
    → get_random req_bytes st none ≡ ok c
    → (req_bytes < 65536)
      × (c
          ≡ Command.get_random
              (record { tag = st; cc = cc_get_random; params = big_endian 2 req_bytes }))
unfolding get_random
get_random-ok req_bytes st c made =
    let (x, hx, e) = >>=-eq-ok (to_bytes req_bytes 2) _ made in
    let (fits, ex) = to_bytes-ok req_bytes 2 x hx in
    (
      fits,
      sym (ok-injective e)
          ∙ ap (λ p. Command.get_random (record { tag = st; cc = cc_get_random; params = p })) ex,
    )

-- `to_proto` reads the two bytes of the parameters back.
reads_request :
    (req_bytes st : ℕ)
    → req_bytes < 65536
    → let base : TpmCommand = record {
      tag = st;
      cc = cc_get_random;
      params = big_endian 2 req_bytes;
    } in
      get_random_to_proto base ≡ Message.getrandom (proto_header base) req_bytes
unfolding get_random_to_proto
reads_request req_bytes st fits =
    let x = big_endian 2 req_bytes in
    let base : TpmCommand = record { tag = st; cc = cc_get_random; params = x } in
    let start : length x - 2 ≡ 0 = omega (arith, length-big_endian 2 req_bytes) in
    ap (λ k. Message.getrandom (proto_header base) (from_bytes (drop k x))) start
    ∙ ap (λ n. Message.getrandom (proto_header base) n)
        (ap from_bytes (drop-zero x) ∙ from_bytes-big_endian 2 req_bytes fits)

module _ (mu : Mu) (wire : IsWireFormat mu) where
  request-Writes :
      (n : ℕ)
      → n < 65536
      → Writes (marshal_command_field mu (Field.bytes_requested n)) (big_endian 2 n)
  unfolding marshal_command_field
  request-Writes n fits =
      subst (λ t. Writes (if t then (λ buf. none) else call (mu.uint16 n)) (big_endian 2 n))
        (sym (le→ltb_false 65535 n (omega arith))) (uint16-Writes mu wire n fits)

  -- A TPMGetRandom command without sessions that serializes has a message, and `MarshalCommand`
  -- writes it as the bytes of the command, if tss2 writes integers in their documented format and
  -- the bytes fit `kMaxBuffer`: `to_proto` reads the number of bytes back from the parameters.
  pub marshal_command-get_random :
      (req_bytes st : ℕ) (c : Command) (b : Bytes)
      → get_random req_bytes st none ≡ ok c
      → bytes_of c ≡ ok b
      → length b ≤ max_buffer
      → (m : Message) × (to_proto c ≡ ok (some m)) × (marshal_command mu m ≡ some b)
  unfolding bytes_of base_of to_proto fields_of
  marshal_command-get_random req_bytes st c b made built room =
      let (fits, e) = get_random-ok req_bytes st c made in
      let base : TpmCommand = record {
        tag = st;
        cc = cc_get_random;
        params = big_endian 2 req_bytes;
      } in
      let m = Message.getrandom (proto_header base) req_bytes in
      (
        m,
        ap to_proto e ∙ ap (λ n. ok (some n)) (reads_request req_bytes st fits),
        marshal_command-frame mu wire base m _ b refl
            (last-Writes mu wire (Field.bytes_requested req_bytes) _
              (request-Writes req_bytes fits))
            (rw e at built) room,
      )
