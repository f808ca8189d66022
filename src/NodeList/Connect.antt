-- ===== src/NodeList/Connect.antt =====
-- frontend/src/lib/node-list.ts: the text of the connect dialog, and the answers to the request.
pub mod Lines
pub mod Accepted
use garage_admin_console.Base.{
  ℕ, zero, suc, ◌+◌, ◌++◌, Bool, true, false, not, ◌&&◌, ◌||◌, Option, none, some, List, [], ◌∷◌,
  map, Text, text, trim, is_space, if◌then◌else◌, eqb, leb, all, contains, includes, is_empty,
  length, filter, or_else, is_some,
}
use garage_admin_console.Api.{ConnectNodeResult}
use garage_admin_console.Locale.{decimal}

-- `MAX_CONNECT_NODES`
abbrev pub max_connect_nodes : ℕ
max_connect_nodes = 10

abbrev is_hex : ℕ → Bool
is_hex c = (leb b'0' c && leb c b'9') || (leb b'a' c && leb c b'f')

abbrev is_digit : ℕ → Bool
is_digit c = leb b'0' c && leb c b'9'

-- What follows `n` hexadecimal digits.
after_hex : ℕ → Text → Option Text
after_hex zero s = some s
after_hex (suc n) [] = none
after_hex (suc n) (c ∷ s) = if is_hex c then after_hex n s else none

after_at : Text → Option Text
after_at [] = none
after_at (c ∷ s) = if eqb c b'@' then some s else none

-- `/^[0-9a-f]{64}@/`: what follows the match.
unfoldable pub after_id : Text → Option Text
unfolding after_hex after_at
after_id s = elim (after_hex 64 s) [ none ↦ none | some rest ↦ after_at rest ]

-- `[0-9]+$`
is_port : Text → Bool
is_port s = not (is_empty s) && all is_digit s

-- `[^\s@]*:[0-9]+$`
host_rest : Text → Bool
unfolding is_port
host_rest [] = false
host_rest (c ∷ s) = (eqb c b':' && is_port s) || (not (is_space c || eqb c b'@') && host_rest s)

-- `[^\s@]+:[0-9]+$`
host_port : Text → Bool
unfolding host_rest
host_port [] = false
host_port (c ∷ s) = not (is_space c || eqb c b'@') && host_rest s

-- `CONNECT_PEER_PATTERN.test(s)`
unfoldable pub is_peer : Text → Bool
unfolding after_id host_port
is_peer s = elim (after_id s) [ none ↦ false | some rest ↦ host_port rest ]

-- `text.split(/\r?\n/)`
abbrev push_char : ℕ → List Text → List Text
push_char c [] = (c ∷ []) ∷ []
push_char c (line ∷ lines) = (c ∷ line) ∷ lines

abbrev starts_line_feed : Text → Bool
starts_line_feed [] = false
starts_line_feed (c ∷ s) = eqb c 10

unfoldable pub split_lines : Text → List Text
split_lines [] = [] ∷ []
split_lines (c ∷ s) =
    let lines = split_lines s in
    if eqb c 10
    then [] ∷ lines
    else if eqb c 13 && starts_line_feed s
    then lines
    else push_char c lines

pub record ConnectLineError : Type 0 where
  pub line : ℕ
  pub message : Text

-- `ParsedConnectInput` with the variables of the loop.
pub record ConnectState : Type 0 where
  pub peers : List Text
  pub errors : List ConnectLineError
  pub seen : List Text
  pub count : ℕ

abbrev too_many : Text
too_many = text "一度に接続できるのは " ++ (decimal max_connect_nodes ++ text " ノードまでです")

abbrev report : ℕ → Text → ConnectState → ConnectState
report line message s = record s {
  errors = s.errors ++ (record { line = line; message = message } ∷ []);
}

-- `value.includes('@')`
abbrev contains_at : Text → Bool
contains_at v = includes v (text "@")

-- `/^[0-9a-f]{64}@/.test(value)`
abbrev has_id : Text → Bool
has_id v = is_some (after_id v)

-- The checks of one line, in their order.
pub check_peer : ℕ → Text → ConnectState → ConnectState
check_peer line value s =
    if not (contains_at value)
    then report line (text "<ノード ID>@<アドレス>:<ポート> の形式で入力してください") s
    else if not (has_id value)
    then report line (text "ノード ID は 64 桁の 16 進数 (小文字) です") s
    else if not (is_peer value)
    then report line (text "アドレスは <ホスト>:<ポート> の形式です (空白は含められません)") s
    else if contains s.seen value
    then report line (text "同じノードが重複しています") s
    else record s { seen = s.seen ++ (value ∷ []); peers = s.peers ++ (value ∷ []) }

-- The counter, and the error on the first line past the limit.
pub count_line : ℕ → ConnectState → ConnectState
count_line line s =
    let counted = record s { count = s.count + 1 } in
    if eqb counted.count (max_connect_nodes + 1) then report line too_many counted else counted

-- The body of the loop; `line` is `i + 1`.
pub connect_line : ℕ → Text → ConnectState → ConnectState
connect_line line raw s =
    let value = trim raw in if is_empty value then s else check_peer line value (count_line line s)

pub connect_lines : ℕ → List Text → ConnectState → ConnectState
connect_lines i [] s = s
connect_lines i (raw ∷ raws) s = connect_lines (suc i) raws (connect_line (suc i) raw s)

pub record ParsedConnectInput : Type 0 where
  pub peers : List Text
  pub errors : List ConnectLineError

-- `parseConnectInput`
unfoldable pub parse_connect_input : Text → ParsedConnectInput
unfolding connect_lines connect_line count_line check_peer split_lines
parse_connect_input input =
    let s =
      connect_lines 0 (split_lines input)
        (record { peers = []; errors = []; seen = []; count = 0 }) in
    record { peers = s.peers; errors = s.errors }

pub record ConnectResultRow : Type 0 where
  pub peer : Text
  pub success : Bool
  pub error : Option Text

-- The row of a peer and of the answer at its position, if there is one.
pair_result : Text → Option ConnectNodeResult → ConnectResultRow
pair_result peer none = record {
  peer = peer;
  success = false;
  error = some (text "応答に結果が含まれていません");
}
pair_result peer (some r) = record {
  peer = peer;
  success = r.success;
  error = if r.success then none else r.error;
}

-- `pairConnectResults`
unfoldable pub pair_connect_results : List Text → List ConnectNodeResult → List ConnectResultRow
unfolding pair_result
pair_connect_results [] rs = []
pair_connect_results (peer ∷ peers) [] = pair_result peer none ∷ pair_connect_results peers []
pair_connect_results (peer ∷ peers) (r ∷ rs) =
    pair_result peer (some r) ∷ pair_connect_results peers rs

pub data ConnectOutcome : Type 0 where
  every partial nothing : ConnectOutcome

-- `connectOutcome`; `every` is 'all' and `nothing` is 'none'.
unfoldable pub connect_outcome : List ConnectResultRow → ConnectOutcome
connect_outcome rows =
    let ok = length (filter (λ r. r.success) rows) in
    if eqb ok 0 then nothing else if eqb ok (length rows) then every else partial
