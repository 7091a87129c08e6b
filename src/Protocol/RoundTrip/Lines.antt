-- ===== src/Protocol/RoundTrip/Lines.antt =====
-- Lines that end in `\r\n`, as both parsers of pkg/protocol/parser.go take them off their input.
use fast_and_accurate_store.Base.{
  ℕ, suc, ◌+◌, ◌≤◌, ◌≡◌, refl, false, some, List, [], ◌∷◌, ◌++◌, append_assoc, Bytes, arith, ltb,
  length, drop,
}
use fast_and_accurate_store.Protocol.Text.{is_space, decimal}
use fast_and_accurate_store.Protocol.Decimal.{decimal-Digits, Digits-NoSpace, NoSpace}
use fast_and_accurate_store.Protocol.Writer.{write_bulk_string, write_bulks, write_command}
use fast_and_accurate_store.Protocol.Command.{max_bulk_length}
use fast_and_accurate_store.Protocol.Buffer.{index_crlf}
use fast_and_accurate_store.Protocol.Stream.{read_line}

index_crlf-step :
    (c d i : ℕ) (s : Bytes)
    → is_space c ≡ false
    → index_crlf (d ∷ s) ≡ some i
    → index_crlf (c ∷ d ∷ s) ≡ some (suc i)
unfolding is_space
index_crlf-step c d i s h e = unfold index_crlf in ground (arith, e)

pub index_crlf-line : (s t : Bytes) → NoSpace s → index_crlf (s ++ 13 ∷ 10 ∷ t) ≡ some (length s)
index_crlf-line [] t h = unfold index_crlf in refl
index_crlf-line (c ∷ []) t h = index_crlf-step c 13 0 (10 ∷ t) h.0 (index_crlf-line [] t tt)
index_crlf-line (c ∷ d ∷ s) t h =
    index_crlf-step c d (length (d ∷ s)) (s ++ 13 ∷ 10 ∷ t) h.0 (index_crlf-line (d ∷ s) t h.1)

read_line-step :
    (c : ℕ) (s line left : Bytes)
    → is_space c ≡ false
    → read_line s ≡ some (line, left)
    → read_line (c ∷ s) ≡ some (c ∷ line, left)
unfolding is_space
read_line-step c s line left h e = unfold read_line in ground (arith, e)

pub read_line-line :
    (s t : Bytes) → NoSpace s → read_line (s ++ 13 ∷ 10 ∷ t) ≡ some (s ++ 13 ∷ 10 ∷ [], t)
read_line-line [] t h = unfold read_line in refl
read_line-line (c ∷ s) t h =
    read_line-step c (s ++ 13 ∷ 10 ∷ t) (s ++ 13 ∷ 10 ∷ []) t h.0 (read_line-line s t h.1)

suc-add_two : (n : ℕ) → suc n + 2 ≡ suc (n + 2)
suc-add_two n = omega arith

pub drop-line : (s t : Bytes) → drop (length s + 2) (s ++ 13 ∷ 10 ∷ t) ≡ t
drop-line [] t = refl
drop-line (c ∷ s) t = rw (suc-add_two (length s)) (drop-line s t)

pub ltb-ge : {m n : ℕ} → n ≤ m → ltb m n ≡ false
ltb-ge h = ground arith

pub decimal-NoSpace : (n : ℕ) → NoSpace (decimal n)
decimal-NoSpace n = Digits-NoSpace (decimal n) (decimal-Digits n)

-- No argument is longer than what the parsers take.
abbrev pub BulksFit : List Bytes → Type 0
BulksFit [] = Unit
BulksFit (arg ∷ args) = (length arg ≤ max_bulk_length) × BulksFit args

pub write_bulks-cons :
    (arg : Bytes) (args : List Bytes) (rest : Bytes)
    → write_bulks (arg ∷ args) ++ rest
      ≡ b'$' ∷ (decimal (length arg) ++ 13 ∷ 10 ∷ (arg ++ 13 ∷ 10 ∷ (write_bulks args ++ rest)))
unfolding write_bulks write_bulk_string
write_bulks-cons arg args rest =
    rw
      (
        append_assoc (decimal (length arg)),
        append_assoc arg,
        append_assoc (decimal (length arg)),
        append_assoc arg,
      )
      refl

pub write_command-append :
    (args : List Bytes) (rest : Bytes)
    → write_command args ++ rest
      ≡ b'*' ∷ (decimal (length args) ++ 13 ∷ 10 ∷ (write_bulks args ++ rest))
unfolding write_command
write_command-append args rest = rw (append_assoc (decimal (length args))) refl
