-- ===== src/Pvp/Roster.antt =====
-- pvp-championship/player.c: how a real player reads player_status.txt.
use sp_hw.Base.{
  ℕ, zero, suc, ◌≡◌, refl, Bool, true, false, List, [], ◌∷◌, ◌++◌, Option, none, some, Ordering,
  if◌then◌else◌,
}
use sp_hw.Base.Int.{ℤ, pos, negsuc}
use sp_hw.Base.Error.{◌>>=◌}
use sp_hw.Base.Decimal.{is_space, print_int, scan_int, scan_int-print_int, scan_int_space, IsInt32}
use sp_hw.Base.Strings.{strcmp}
use sp_hw.Base.Words.{scan_word, scan_char, scan_word-append, scan_char_space}
use sp_hw.Pvp.Status.{Attribute, fire, grass, water, Status}

-- The fields of a status that a line fills.
pub record Line : Type 0 where
  pub hp : ℤ
  pub atk : ℤ
  pub attr : Attribute
  pub current_battle_id : ℕ
  pub battle_ended_flag : ℤ

abbrev pub name_of : Attribute → List ℕ
name_of fire = b'F' ∷ b'I' ∷ b'R' ∷ b'E' ∷ []
name_of grass = b'G' ∷ b'R' ∷ b'A' ∷ b'S' ∷ b'S' ∷ []
name_of water = b'W' ∷ b'A' ∷ b'T' ∷ b'E' ∷ b'R' ∷ []

-- !strcmp(s1, ...)
abbrev is_name : List ℕ → Attribute → Bool
is_name w a = elim (strcmp w (name_of a)) [ Ordering.eq ↦ true | _ ↦ false ]

-- The attribute of a word; the status has none for another word.
unfoldable pub attribute : List ℕ → Option Attribute
attribute w =
    if is_name w grass
    then some grass
    else if is_name w water
    then some water
    else if is_name w fire
    then some fire
    else none

-- sscanf of a line, with the word as an attribute; `none` where a conversion fails.
unfoldable pub parse_line : List ℕ → Option Line
unfolding attribute
parse_line s = do
  (hp, s1) ← scan_int s
  (atk, s2) ← scan_int s1
  (word, s3) ← scan_word s2
  (letter, s4) ← scan_char s3
  (flag, s5) ← scan_int s4
  attr ← attribute word
  some (record {
    hp = hp;
    atk = atk;
    attr = attr;
    current_battle_id = letter;
    battle_ended_flag = flag;
  })

-- The loop over the lines that fgets returns, up to the player's own one, which overwrites what the
-- lines before have filled.
unfoldable pub read_lines : ℕ → List (List ℕ) → Option Line
unfolding parse_line
read_lines k [] = none
read_lines zero (s ∷ file) = parse_line s
read_lines (suc k) (s ∷ file) = parse_line s >>= λ l. read_lines k file

-- The first status of a real player.
abbrev pub real_status : ℤ → Line → Status
real_status id l = record {
  real_player_id = id;
  hp = l.hp;
  atk = l.atk;
  attr = l.attr;
  current_battle_id = l.current_battle_id;
  battle_ended_flag = l.battle_ended_flag;
}

abbrev pub line_of : List (List ℕ) → ℤ → Option Line
line_of file (pos k) = read_lines k file
line_of file (negsuc k) = none

-- The format of a line.
abbrev pub print_line : Line → List ℕ
print_line l =
    print_int l.hp
    ++ (b' '
        ∷ (print_int l.atk
            ++ (b' '
                ∷ (name_of l.attr
                    ++ (b' '
                        ∷ l.current_battle_id
                        ∷ b' '
                        ∷ (print_int l.battle_ended_flag ++ (10 ∷ [])))))))

scan_name :
    (a : Attribute) (rest : List ℕ)
    → scan_word (b' ' ∷ (name_of a ++ b' ' ∷ rest)) ≡ some (name_of a, b' ' ∷ rest)
scan_name fire rest =
    scan_word-append b'F' (b'I' ∷ b'R' ∷ b'E' ∷ []) rest (refl, (refl, (refl, (refl, tt))))
scan_name grass rest =
    scan_word-append b'G' (b'R' ∷ b'A' ∷ b'S' ∷ b'S' ∷ []) rest
      (refl, (refl, (refl, (refl, (refl, tt)))))
scan_name water rest =
    scan_word-append b'W' (b'A' ∷ b'T' ∷ b'E' ∷ b'R' ∷ []) rest
      (refl, (refl, (refl, (refl, (refl, tt)))))

attribute-name_of : (a : Attribute) → attribute (name_of a) ≡ some a
unfolding attribute strcmp
attribute-name_of fire = refl
attribute-name_of grass = refl
attribute-name_of water = refl

-- A line in the format of the file is read back, if its numbers are `int`s and the battle is named by
-- a character that is no space.
pub parse_line-print_line :
    (l : Line)
    → IsInt32 l.hp
    → IsInt32 l.atk
    → IsInt32 l.battle_ended_flag
    → is_space l.current_battle_id ≡ false
    → parse_line (print_line l) ≡ some l
unfolding parse_line
parse_line-print_line l h a f c =
    let s4 = b' ' ∷ (print_int l.battle_ended_flag ++ (10 ∷ [])) in
    let s3 = b' ' ∷ l.current_battle_id ∷ s4 in
    let s2 = b' ' ∷ (name_of l.attr ++ s3) in
    let s1 = b' ' ∷ (print_int l.atk ++ s2) in
    rw
      (
        scan_int-print_int l.hp s1 h refl,
        scan_int_space (print_int l.atk ++ s2),
        scan_int-print_int l.atk s2 a refl,
        scan_name l.attr (l.current_battle_id ∷ s4),
        scan_char_space l.current_battle_id s4 c,
        scan_int_space (print_int l.battle_ended_flag ++ (10 ∷ [])),
        scan_int-print_int l.battle_ended_flag (10 ∷ []) f refl,
        attribute-name_of l.attr,
      )
      refl
