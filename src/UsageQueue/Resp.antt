-- ===== src/UsageQueue/Resp.antt =====
-- internal/usagequeue/poller.go: the framing of commands and replies, writeRESPCommand and readRESP.
-- A reader is the bytes that are still to come, up to the end of the stream.
pub mod RoundTrip
use metering_proxy.Common.{
  ℕ, zero, suc, ◌+◌, ◌^◌, ◌≡◌, refl, Bool, ◌||◌, not, ◌&&◌, Option, none, some, List, [], ◌∷◌, ◌++◌,
  Bytes, codes, length, take, drop, ltb, leb, ◌==◌, if◌then◌else◌,
}
use metering_proxy.Common.Trim.{bytes_eq}
use metering_proxy.Common.Int64.{ℤ, pos, negsuc}
use metering_proxy.Common.Decimal.{print, atoi}

abbrev pub crlf : Bytes
crlf = b'\r' ∷ b'\n' ∷ []

-- fmt.Fprintf(w, "$%d\r\n%s\r\n", len(arg), arg)
unfoldable pub write_bulk : Bytes → Bytes
unfolding print
write_bulk arg = b'$' ∷ print (length arg) ++ (crlf ++ (arg ++ crlf))

unfoldable pub write_bulks : List Bytes → Bytes
unfolding write_bulk
write_bulks [] = []
write_bulks (arg ∷ args) = write_bulk arg ++ write_bulks args

-- writeRESPCommand, where no write fails.
unfoldable pub write_resp_command : List Bytes → Bytes
unfolding write_bulks print
write_resp_command args = b'*' ∷ print (length args) ++ (crlf ++ write_bulks args)

-- A line without its '\n', and what comes behind it; `none` where the stream ends first.
unfoldable pub read_string : Bytes → Option (Bytes × Bytes)
read_string [] = none
read_string (c ∷ s) =
    if c == b'\n'
    then some ([], s)
    else elim (read_string s) [ none ↦ none | some (l, rest) ↦ some (c ∷ l, rest) ]

-- strings.TrimSuffix(line, "\r")
unfoldable pub trim_cr : Bytes → Bytes
trim_cr [] = []
trim_cr (c ∷ []) = if c == b'\r' then [] else c ∷ []
trim_cr (c ∷ d ∷ s) = c ∷ trim_cr (d ∷ s)

-- readRESPLine
unfoldable pub read_resp_line : Bytes → Option (Bytes × Bytes)
unfolding read_string trim_cr
read_resp_line r = elim (read_string r) [ none ↦ none | some (l, rest) ↦ some (trim_cr l, rest) ]

-- What readRESP returns: a payload, a nil bulk, or an error; or it panics.
pub data Reply : Type 0 where
  payload : Bytes → Reply
  nil_bulk : Reply
  failed : Reply
  panics : Reply

module _ (max_slice : ℕ) where
  -- The bytes of a bulk string of length n, with its terminator. `max_slice` is the longest slice
  -- that make gives; for a longer one, also where the int n+2 wraps, it panics.
  unfoldable pub read_bulk : ℕ → Bytes → Reply × Bytes
  unfolding bytes_eq
  read_bulk n r =
      if ltb max_slice (n + 2)
      then (panics, r)
      else if ltb (length r) (n + 2)
      then (failed, [])
      else if bytes_eq (take 2 (drop n r)) crlf
      then (payload (take n r), drop (n + 2) r)
      else (failed, drop (n + 2) r)

  -- A length read from its line; a negative one is a nil bulk.
  unfoldable pub read_length : Option ℤ → Bytes → Reply × Bytes
  unfolding read_bulk
  read_length none r = (failed, r)
  read_length (some (negsuc n)) r = (nil_bulk, r)
  read_length (some (pos n)) r = read_bulk n r

  -- The three cases that read a line.
  unfoldable pub read_line_reply : ℕ → Option (Bytes × Bytes) → Reply × Bytes
  unfolding read_length atoi
  read_line_reply c none = (failed, [])
  read_line_reply c (some (l, rest)) =
      if c == b'+'
      then (payload l, rest)
      else if c == b'-'
      then (failed, rest)
      else read_length (atoi l) rest

  -- readRESP, with what is left of the stream.
  unfoldable pub read_resp : Bytes → Reply × Bytes
  unfolding read_resp_line read_line_reply
  read_resp [] = (failed, [])
  read_resp (c ∷ r) =
      if c == b'+' || c == b'-' || c == b'$'
      then read_line_reply c (read_resp_line r)
      else (failed, r)

  -- What a reader of a command does: as many replies as the command has arguments.
  unfoldable pub read_replies : ℕ → Bytes → List Reply × Bytes
  read_replies zero r = ([], r)
  read_replies (suc n) r =
      let (reply, rest) = read_resp r in
      let (replies, end) = read_replies n rest in (reply ∷ replies, end)

ok_reply : read_resp 100 (codes "+OK\r\n:1\r\n") ≡ (payload (codes "OK"), codes ":1\r\n")
unfolding read_resp
ok_reply = refl
