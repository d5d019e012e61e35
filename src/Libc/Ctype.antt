-- ===== src/Libc/Ctype.antt =====
-- lib/ctype/*.c on a character that is not negative.
use mes.Base.{ℕ, ◌+◌, ◌-◌, Bool, not, ◌&&◌, ◌||◌, Option, none, some, ltb, leb, ◌==◌, if◌then◌else◌}

unfoldable pub isascii : ℕ → Bool
isascii c = leb c 127

unfoldable pub iscntrl : ℕ → Bool
iscntrl c = ltb c 32

unfoldable pub isdigit : ℕ → Bool
isdigit c = leb b'0' c && leb c b'9'

unfoldable pub isgraph : ℕ → Bool
isgraph c = ltb 32 c && ltb c 127

unfoldable pub islower : ℕ → Bool
islower c = leb b'a' c && leb c b'z'

unfoldable pub isupper : ℕ → Bool
isupper c = leb b'A' c && leb c b'Z'

unfoldable pub isalpha : ℕ → Bool
unfolding islower isupper
isalpha c = islower c || isupper c

unfoldable pub isalnum : ℕ → Bool
unfolding isdigit isalpha
isalnum c = isdigit c || isalpha c

unfoldable pub isprint : ℕ → Bool
isprint c = leb 32 c && ltb c 127

unfoldable pub isspace : ℕ → Bool
isspace c = (c == 9) || ((c == 10) || ((c == 11) || ((c == 12) || ((c == 13) || (c == 32)))))

unfoldable pub ispunct : ℕ → Bool
unfolding isprint isspace isalnum
ispunct c = isprint c && (not (isspace c) && not (isalnum c))

unfoldable pub isxdigit : ℕ → Bool
unfolding isdigit
isxdigit c = isdigit c || ((leb b'a' c && leb c b'f') || (leb b'A' c && leb c b'F'))

-- For another base the code returns nothing; `none`.
unfoldable pub isnumber : ℕ → ℕ → Option Bool
unfolding isdigit isxdigit
isnumber c base =
    if base == 2
    then some (leb b'0' c && leb c b'1')
    else if base == 8
    then some (leb b'0' c && leb c b'7')
    else if base == 10
    then some (isdigit c)
    else if base == 16
    then some (isxdigit c)
    else none

unfoldable pub tolower : ℕ → ℕ
unfolding isupper
tolower c = if isupper c then c + (b'a' - b'A') else c

unfoldable pub toupper : ℕ → ℕ
unfolding islower
toupper c = if islower c then c - (b'a' - b'A') else c
