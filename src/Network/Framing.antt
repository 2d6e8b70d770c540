-- ===== src/Network/Framing.antt =====
-- oracle/pkg/network/types.go: messages on a stream, a length of four bytes in front of each.
-- The JSON encoding is a parameter. A writer takes a number of bytes and then fails; a reader is the
-- bytes that are still to come.
use evm_oracle.Base.{
  [], ◌∷◌, String, Option, Bytes, ℕ, Bool, ◌≡◌, ◌*◌, ◌/◌, if◌then◌else◌, some, ◌^◌, leb, none, ltb,
  ◌+◌, ◌%◌, length, false, ◌++◌, take, true, ◌-◌, drop,
}

pub record Message : Type 0 where
  pub from : String
  pub to : String
  pub payload : Bytes

-- encoding/json on messages; `none` is an error
pub record Codec : Type 0 where
  pub encode : Message → Option Bytes
  pub decode : Bytes → Option Message

-- What encoding/json guarantees of what it has encoded
abbrev pub RoundTrips : Codec → Type 0
RoundTrips c = (m : Message) (bytes : Bytes) → c.encode m ≡ some bytes → c.decode bytes ≡ some m

abbrev pub max_message_size : ℕ
max_message_size = 10 * 1024 * 1024

-- binary.BigEndian on a uint32: `be32 (uint32 n)`
unfoldable pub be32 : ℕ → Bytes
be32 n = (n / 2 ^ 24 % 256) ∷ (n / 2 ^ 16 % 256) ∷ (n / 2 ^ 8 % 256) ∷ (n % 256) ∷ []

pub record Writer : Type 0 where
  pub written : Bytes
  pub room : ℕ

-- Write of an io.Writer: what does not fit is cut off, and an error.
unfoldable pub write : Writer → Bytes → Writer × Bool
write w bytes =
    if leb (length bytes) w.room
    then (record { written = w.written ++ bytes; room = w.room - length bytes }, true)
    else (record { written = w.written ++ take w.room bytes; room = 0 }, false)

pub data FrameError : Type 0 where
  encode_failed write_length_failed write_data_failed : FrameError
  read_length_failed too_large read_data_failed decode_failed : FrameError

unfoldable pub write_data : Writer × Bool → Bytes → Option FrameError × Writer
write_data (w, false) bytes = (some write_length_failed, w)
write_data (w, true) bytes =
    let (w', done) = write w bytes in (if done then none else some write_data_failed, w')

unfoldable pub write_message : Codec → Writer → Message → Option FrameError × Writer
unfolding write write_data be32
write_message c w m = elim (c.encode m) [
  | none ↦ (some encode_failed, w)
  | some bytes ↦ write_data (write w (be32 (length bytes))) bytes
]

pub data Read : Type 0 where
  got : Message → Bytes → Read
  failed : FrameError → Read

unfoldable pub finish : Codec → Option Message → Bytes → Read
finish c none rest = failed decode_failed
finish c (some m) rest = got m rest

-- The body of a frame of length n
unfoldable pub read_body : Codec → ℕ → Bytes → Read
unfolding finish
read_body c n bytes =
    if ltb max_message_size n
    then failed too_large
    else if ltb (length bytes) n
    then failed read_data_failed
    else finish c (c.decode (take n bytes)) (drop n bytes)

-- Fewer than four bytes are io.EOF or io.ErrUnexpectedEOF.
unfoldable pub read_message : Codec → Bytes → Read
unfolding read_body
read_message c (a ∷ b ∷ d ∷ e ∷ rest) = read_body c (((a * 256 + b) * 256 + d) * 256 + e) rest
read_message c _ = failed read_length_failed
