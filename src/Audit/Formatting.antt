-- ===== src/Audit/Formatting.antt =====
-- AuditEvent::format: what a reader of the log can tell.
use open_arango_dbcore.Prelude.{ℕ, ◌≡◌, refl, ap, [], ◌∷◌, ◌++◌, Str, Lacks, arith}
use open_arango_dbcore.Audit.{AuditEvent, format}

abbrev pub Separable : AuditEvent → Type 0
Separable e =
    Lacks b'|' e.timestamp
    × Lacks b'|' e.server
    × Lacks b'|' e.topic
    × Lacks b'|' e.username
    × Lacks b'|' e.database
    × Lacks b'|' e.client_ip
    × Lacks b'|' e.auth_method

abbrev head_of : Str → ℕ
head_of [] = 0
head_of (x ∷ xs) = x

abbrev tail_of : Str → Str
tail_of [] = []
tail_of (x ∷ xs) = xs

-- The first separator splits two lines alike.
split_alike :
    (xs ys rest rest' : Str)
    → Lacks b'|' xs
    → Lacks b'|' ys
    → xs ++ b'|' ∷ rest ≡ ys ++ b'|' ∷ rest'
    → (xs ≡ ys) × (rest ≡ rest')
split_alike [] [] rest rest' no_x no_y same = (refl, ap tail_of same)
split_alike [] (y ∷ ys) rest rest' no_x (other, no_y) same =
    let here : b'|' ≡ y = ap head_of same in absurd (ground arith)
split_alike (x ∷ xs) [] rest rest' (other, no_x) no_y same =
    let here : x ≡ b'|' = ap head_of same in absurd (ground arith)
split_alike (x ∷ xs) (y ∷ ys) rest rest' (other_x, no_x) (other_y, no_y) same =
    let (front, back) = split_alike xs ys rest rest' no_x no_y (ap tail_of same) in
    let here : x ≡ y = ap head_of same in ((λ i. here i ∷ front i), back)

-- A line of the log tells the event: two events whose fields before the text have no separator in
-- them and whose lines are the same are the same event.
pub format-injective :
    (e e' : AuditEvent) → Separable e → Separable e' → format e ≡ format e' → e ≡ e'
unfolding format
format-injective e e' (n1, n2, n3, n4, n5, n6, n7) (m1, m2, m3, m4, m5, m6, m7) same =
    let (timestamp, after1) = split_alike e.timestamp e'.timestamp _ _ n1 m1 same in
    let (server, after2) = split_alike e.server e'.server _ _ n2 m2 after1 in
    let (topic, after3) = split_alike e.topic e'.topic _ _ n3 m3 after2 in
    let (username, after4) = split_alike e.username e'.username _ _ n4 m4 after3 in
    let (database, after5) = split_alike e.database e'.database _ _ n5 m5 after4 in
    let (client_ip, after6) = split_alike e.client_ip e'.client_ip _ _ n6 m6 after5 in
    let (auth_method, text) = split_alike e.auth_method e'.auth_method _ _ n7 m7 after6 in
    λ i. record {
      timestamp = timestamp i;
      server = server i;
      topic = topic i;
      username = username i;
      database = database i;
      client_ip = client_ip i;
      auth_method = auth_method i;
      text = text i;
    }
