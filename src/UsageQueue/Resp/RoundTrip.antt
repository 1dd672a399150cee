-- ===== src/UsageQueue/Resp/RoundTrip.antt =====
-- What writeRESPCommand writes, readRESP reads back.
use metering_proxy.Common.{
  ℕ, suc, ◌+◌, ◌≤◌, ◌<◌, ◌^◌, ◌≡◌, refl, sym, ap, ◌∙◌, false, Option, none, some, List, [], ◌∷◌,
  ◌++◌, map, Bytes, length, take, drop, ltb, ◌==◌, if◌then◌else◌, All, arith, append_assoc,
  length-append, take_front, drop_front, drop-drop,
}
use metering_proxy.Common.Trim.{bytes_eq}
use metering_proxy.Common.Int64.{pos}
use metering_proxy.Common.Decimal.{atoi, print, IsDigits, print-IsDigits, atoi-print}
use metering_proxy.UsageQueue.Resp.{
  crlf, write_bulk, write_bulks, write_resp_command, read_string, trim_cr, read_resp_line, Reply,
  payload, read_bulk, read_length, read_line_reply, read_resp, read_replies,
}

-- A line of digits, with its line break.
read_string-IsDigits :
    (d r : Bytes) → IsDigits d → read_string (d ++ (crlf ++ r)) ≡ some (d ++ b'\r' ∷ [], r)
unfolding read_string
read_string-IsDigits [] r h = refl
read_string-IsDigits (c ∷ d) r (e, h) =
    let no_break : (c == b'\n') ≡ false = ground arith in
    rw (no_break, read_string-IsDigits d r h) refl

trim_cr-append : (d : Bytes) → trim_cr (d ++ b'\r' ∷ []) ≡ d
unfolding trim_cr
trim_cr-append [] = refl
trim_cr-append (c ∷ []) = refl
trim_cr-append (c ∷ e ∷ d) = ap (λ s. c ∷ s) (trim_cr-append (e ∷ d))

read_resp_line-IsDigits :
    (d r : Bytes) → IsDigits d → read_resp_line (d ++ (crlf ++ r)) ≡ some (d, r)
unfolding read_resp_line
read_resp_line-IsDigits d r h =
    rw (read_string-IsDigits d r h, read_resp_line) (ap (λ l. some (l, r)) (trim_cr-append d))

module _ (max_slice : ℕ) where
  read_bulk-append :
      (p r : Bytes)
      → length p + 2 ≤ max_slice
      → read_bulk max_slice (length p) (p ++ (crlf ++ r)) ≡ (payload p, r)
  unfolding read_bulk bytes_eq
  read_bulk-append p r h =
      let fits : ltb max_slice (length p + 2) ≡ false = ground arith in
      let enough : ltb (length (p ++ (crlf ++ r))) (length p + 2) ≡ false =
        ground (arith, length-append p (crlf ++ r)) in
      let body : drop (length p) (p ++ (crlf ++ r)) ≡ crlf ++ r =
        drop_front (length p) p (crlf ++ r) refl in
      let before : take (length p) (p ++ (crlf ++ r)) ≡ p =
        take_front (length p) p (crlf ++ r) refl in
      let behind : drop (length p + 2) (p ++ (crlf ++ r)) ≡ r =
        sym (drop-drop 2 (length p) (p ++ (crlf ++ r))) ∙ ap (drop 2) body in
      rw (fits, enough, body, before, behind) refl

  read_resp-line :
      (d r : Bytes)
      → IsDigits d
      → read_resp max_slice (b'$' ∷ d ++ (crlf ++ r)) ≡ read_length max_slice (atoi d) r
  unfolding read_resp read_line_reply
  read_resp-line d r h = rw (read_resp_line-IsDigits d r h, read_line_reply) refl

  read_length-print :
      (p r : Bytes)
      → max_slice < 2 ^ 63
      → length p + 2 ≤ max_slice
      → read_length max_slice (atoi (print (length p))) (p ++ (crlf ++ r)) ≡ (payload p, r)
  unfolding read_length
  read_length-print p r m h =
      rw (atoi-print (length p) (omega arith), read_length) (read_bulk-append p r h)

  write_bulk-append :
      (p r : Bytes) → write_bulk p ++ r ≡ b'$' ∷ print (length p) ++ (crlf ++ (p ++ (crlf ++ r)))
  unfolding write_bulk
  write_bulk-append p r = simp (append_assoc)

  pub read_resp-write_bulk :
      (p r : Bytes)
      → max_slice < 2 ^ 63
      → length p + 2 ≤ max_slice
      → read_resp max_slice (write_bulk p ++ r) ≡ (payload p, r)
  read_resp-write_bulk p r m h =
      ap (read_resp max_slice) (write_bulk-append p r)
      ∙ (read_resp-line (print (length p)) (p ++ (crlf ++ r)) (print-IsDigits (length p))
          ∙ read_length-print p r m h)

  -- The replies behind a first one.
  abbrev and_replies : ℕ → Reply × Bytes → List Reply × Bytes
  and_replies n first = let more = read_replies max_slice n first.1 in (first.0 ∷ more.0, more.1)

  read_replies-suc :
      (n : ℕ) (r : Bytes) → read_replies max_slice (suc n) r ≡ and_replies n (read_resp max_slice r)
  unfolding read_replies
  read_replies-suc n r = refl

  pub write_bulks-cons :
      (p : Bytes) (args : List Bytes) (r : Bytes)
      → write_bulks (p ∷ args) ++ r ≡ write_bulk p ++ (write_bulks args ++ r)
  unfolding write_bulks
  write_bulks-cons p args r = append_assoc (write_bulk p) (write_bulks args) r

  read_replies-write_bulks :
      (args : List Bytes) (r : Bytes)
      → max_slice < 2 ^ 63
      → All (λ p. length p + 2 ≤ max_slice) args
      → read_replies max_slice (length args) (write_bulks args ++ r) ≡ (map payload args, r)
  read_replies-write_bulks [] r m h = unfold read_replies write_bulks in refl
  read_replies-write_bulks (p ∷ args) r m (k, h) =
      ap (read_replies max_slice (suc (length args))) (write_bulks-cons p args r)
      ∙ (read_replies-suc (length args) (write_bulk p ++ (write_bulks args ++ r))
          ∙ (ap (and_replies (length args)) (read_resp-write_bulk p (write_bulks args ++ r) m k)
              ∙ ap (λ rs. (payload p ∷ rs.0, rs.1)) (read_replies-write_bulks args r m h)))

  read_count : Option (Bytes × Bytes) → Option (List Reply × Bytes)
  read_count none = none
  read_count (some (l, rest)) = elim (atoi l) [
    | some (pos n) ↦ some (read_replies max_slice n rest)
    | _ ↦ none
  ]

  -- The other end of the connection, with the same reader: an array of bulk strings.
  unfoldable pub read_command : Bytes → Option (List Reply × Bytes)
  unfolding read_count
  read_command [] = none
  read_command (c ∷ r) = if c == b'*' then read_count (read_resp_line r) else none

  read_command-line :
      (d r : Bytes) → IsDigits d → read_command (b'*' ∷ d ++ (crlf ++ r)) ≡ read_count (some (d, r))
  unfolding read_command
  read_command-line d r h = ap read_count (read_resp_line-IsDigits d r h)

  read_count-print :
      (n : ℕ) (r : Bytes)
      → n < 2 ^ 63
      → read_count (some (print n, r)) ≡ some (read_replies max_slice n r)
  unfolding read_count
  read_count-print n r h = rw (atoi-print n h, read_count) refl

  write_resp_command-append :
      (args : List Bytes) (r : Bytes)
      → write_resp_command args ++ r
        ≡ b'*' ∷ print (length args) ++ (crlf ++ (write_bulks args ++ r))
  unfolding write_resp_command
  write_resp_command-append args r = simp (append_assoc)

  -- A command that writeRESPCommand writes is read back by the framing of readRESP, argument by
  -- argument and whatever bytes they hold, and nothing of what follows it is read: for fewer than
  -- 2^63 arguments, each of a length that make accepts with the terminator.
  pub read_command-write_resp_command :
      (args : List Bytes) (r : Bytes)
      → max_slice < 2 ^ 63
      → length args < 2 ^ 63
      → All (λ p. length p + 2 ≤ max_slice) args
      → read_command (write_resp_command args ++ r) ≡ some (map payload args, r)
  read_command-write_resp_command args r m few h =
      ap read_command (write_resp_command-append args r)
      ∙ (read_command-line (print (length args)) (write_bulks args ++ r)
            (print-IsDigits (length args))
          ∙ (read_count-print (length args) (write_bulks args ++ r) few
              ∙ ap some (read_replies-write_bulks args r m h)))
