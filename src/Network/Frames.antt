-- ===== src/Network/Frames.antt =====
-- What goes through a stream comes out of it.
use mathlib.Core.List.{append_assoc}
use evm_oracle.Network.Framing.{
  be32, write_message, read_body, Codec, read_message, Writer, Message, max_message_size,
  RoundTrips, finish, got, failed, too_large,
}
use evm_oracle.Base.{
  Bytes, ℕ, length, ◌/◌, ◌++◌, ◌^◌, ◌≡◌, ◌≤◌, ◌%◌, some, refl, ◌*◌, ap, ◌+◌, ◌<◌, arith, none,
  length-append, take-append, drop-append,
}

abbrev pub frame : Bytes → Bytes
frame bytes = be32 (length bytes) ++ bytes

be32_lem :
    (n : ℕ)
    → (((n / 2 ^ 24 % 256) * 256 + (n / 2 ^ 16 % 256)) * 256 + (n / 2 ^ 8 % 256)) * 256 + (n % 256)
      ≡ n % 2 ^ 32
be32_lem n = omega arith

length-be32 : (n : ℕ) → length (be32 n) ≡ 4
unfolding be32
length-be32 n = refl

read-be32 :
    (c : Codec) (n : ℕ) (rest : Bytes)
    → read_message c (be32 n ++ rest) ≡ read_body c (n % 2 ^ 32) rest
unfolding be32 read_message
read-be32 c n rest = ap (λ k. read_body c k rest) (be32_lem n)

-- With room for the frame a write succeeds, and appends the frame.
write-frame :
    (c : Codec) (w : Writer) (m : Message) (bytes : Bytes)
    → c.encode m ≡ some bytes
    → length bytes + 4 ≤ w.room
    → ((write_message c w m).0 ≡ none)
      × ((write_message c w m).1.written ≡ w.written ++ frame bytes)
unfolding write_message
write-frame c w m bytes e h =
    rw (e, write_message)
      (ground
        (arith, length-be32 (length bytes), append_assoc w.written (be32 (length bytes)) bytes))

read_body-frame :
    (c : Codec) (bytes rest : Bytes)
    → length bytes ≤ max_message_size
    → read_body c (length bytes) (bytes ++ rest) ≡ finish c (c.decode bytes) rest
unfolding read_body
read_body-frame c bytes rest h =
    ground (arith, length-append bytes rest, take-append bytes rest, drop-append bytes rest)

-- A message of at most 10 MB once encoded, written to a writer with room for it, leaves no error and adds
-- a frame to what was written; a reader that comes to this frame gets the message, and is left with what
-- follows, whatever that is. encoding/json is taken to decode what it has encoded.
pub read-write :
    (c : Codec) (w : Writer) (m : Message) (bytes : Bytes)
    → RoundTrips c
    → c.encode m ≡ some bytes
    → length bytes ≤ max_message_size
    → length bytes + 4 ≤ w.room
    → ((write_message c w m).0 ≡ none)
      × ((write_message c w m).1.written ≡ w.written ++ frame bytes)
      × ((rest : Bytes) → read_message c (frame bytes ++ rest) ≡ got m rest)
read-write c w m bytes trips e small room =
    let (done, written) = write-frame c w m bytes e room in (done, written, λ rest. reads rest)
  where
    body : (rest : Bytes) → read_body c (length bytes) (bytes ++ rest) ≡ got m rest
    body rest = rw (read_body-frame c bytes rest small, trips m bytes e) (unfold finish in refl)

    reads : (rest : Bytes) → read_message c (frame bytes ++ rest) ≡ got m rest
    reads rest =
        rw
          (
            append_assoc (be32 (length bytes)) bytes rest,
            read-be32 c (length bytes) (bytes ++ rest),
          )
          (let fits : length bytes % 2 ^ 32 ≡ length bytes = omega arith in rw fits (body rest))

-- WriteMessage checks no size: a message that encodes to more than 10 MB, and less than 4 GB, is written
-- with no error, and the reader that comes to its frame refuses it.
pub oversize_refused :
    (c : Codec) (w : Writer) (m : Message) (bytes rest : Bytes)
    → c.encode m ≡ some bytes
    → max_message_size < length bytes
    → length bytes < 2 ^ 32
    → length bytes + 4 ≤ w.room
    → ((write_message c w m).0 ≡ none)
      × ((write_message c w m).1.written ≡ w.written ++ frame bytes)
      × (read_message c (frame bytes ++ rest) ≡ failed too_large)
oversize_refused c w m bytes rest e big fits room =
    let (done, written) = write-frame c w m bytes e room in (done, written, refused)
  where
    refused : read_message c (frame bytes ++ rest) ≡ failed too_large
    refused =
        rw
          (
            append_assoc (be32 (length bytes)) bytes rest,
            read-be32 c (length bytes) (bytes ++ rest),
          )
          (unfold read_body in ground arith)
