-- ===== src/Execution/Locks.antt =====
-- packages/agent/src/execution/locks.ts: the resource locks that tasks name, and when two conflict.
use amby.Common.{
  ℕ, ◌≡◌, Bool, true, false, not, ◌&&◌, ◌||◌, Option, none, some, [], ◌∷◌, ◌++◌, drop, length,
  arith, if◌then◌else◌, ◌==◌,
}
use amby.Common.Text.{Text, lit, text_eq, text_eq_iff, starts_with, trim, is_truthy}

pub data Mode : Type 0 where
  read write : Mode

-- The lock as it was written is left out: nothing reads it.
pub record Lock : Type 0 where
  pub kind : Text
  pub scope : Text
  pub mode : Option Mode

abbrev pub after_prefix : Text → Text → Text
after_prefix prefix raw = drop (length prefix) raw

unfoldable pub parse_lock : Text → Lock
parse_lock raw =
    if starts_with (lit "fs-read:") raw
    then record { kind = lit "fs"; scope = after_prefix (lit "fs-read:") raw; mode = some read }
    else (if starts_with (lit "fs-write:") raw
        then record {
          kind = lit "fs";
          scope = after_prefix (lit "fs-write:") raw;
          mode = some write;
        }
        else (if starts_with (lit "sandbox-workdir:") raw
            then record {
              kind = lit "sandbox-workdir";
              scope = after_prefix (lit "sandbox-workdir:") raw;
              mode = none;
            }
            else (if starts_with (lit "integration-write:") raw
                then record {
                  kind = lit "integration-write";
                  scope = after_prefix (lit "integration-write:") raw;
                  mode = none;
                }
                else record { kind = raw; scope = raw; mode = none })))

abbrev pub slash : ℕ
slash = 47

-- `replace(/\/+/g, "/")`.
unfoldable pub collapse : Text → Text
collapse [] = []
collapse (c ∷ s) =
    let rest = collapse s in if c == slash && starts_with (slash ∷ []) rest then rest else c ∷ rest

unfoldable pub ends_with_slash : Text → Bool
ends_with_slash [] = false
ends_with_slash (c ∷ []) = c == slash
ends_with_slash (c ∷ d ∷ s) = ends_with_slash (d ∷ s)

-- `slice(0, -1)`.
unfoldable pub drop_last : Text → Text
drop_last [] = []
drop_last (c ∷ []) = []
drop_last (c ∷ d ∷ s) = c ∷ drop_last (d ∷ s)

unfoldable pub normalize_path : Text → Text
unfolding collapse ends_with_slash drop_last
normalize_path path =
    let trimmed = trim path in
    if is_truthy trimmed
    then (let collapsed = collapse trimmed in
        if ends_with_slash collapsed && not (text_eq collapsed (slash ∷ []))
        then drop_last collapsed
        else collapsed)
    else slash ∷ []

unfoldable pub paths_overlap : Text → Text → Bool
unfolding normalize_path
paths_overlap left right =
    let a = normalize_path left in
    let b = normalize_path right in
    text_eq a b || starts_with (b ++ (slash ∷ [])) a || starts_with (a ++ (slash ∷ [])) b

abbrev pub is_read : Option Mode → Bool
is_read none = false
is_read (some read) = true
is_read (some write) = false

abbrev pub colon : Text
colon = 58 ∷ []

abbrev pub scopes_overlap : Text → Text → Bool
scopes_overlap a b = text_eq a b || starts_with (b ++ colon) a || starts_with (a ++ colon) b

-- The conflict of two parsed locks.
unfoldable pub parsed_conflict : Lock → Lock → Bool
parsed_conflict left right =
    if text_eq left.kind right.kind
    then (if text_eq left.kind (lit "computer-desktop") || text_eq left.kind (lit "memory-write")
        then true
        else (if text_eq left.kind (lit "fs")
            then (if is_read left.mode && is_read right.mode
                then false
                else paths_overlap left.scope right.scope)
            else (if text_eq left.kind (lit "sandbox-workdir")
                then paths_overlap left.scope right.scope
                else (if text_eq left.kind (lit "integration-write")
                    then scopes_overlap left.scope right.scope
                    else text_eq left.scope right.scope))))
    else false

unfoldable pub locks_conflict : Text → Text → Bool
unfolding parse_lock parsed_conflict
locks_conflict left right = parsed_conflict (parse_lock left) (parse_lock right)

text_eq_comm : (a b : Text) → text_eq a b ≡ text_eq b a
text_eq_comm a b = ground (arith, text_eq_iff a b, text_eq_iff b a)

overlap_comm : (x p q r s : Bool) → x ≡ r → x || p || q ≡ r || q || p
overlap_comm x p q r s e = ground arith

paths_overlap_comm : (a b : Text) → paths_overlap a b ≡ paths_overlap b a
unfolding paths_overlap
paths_overlap_comm a b = ground (arith, text_eq_comm (normalize_path a) (normalize_path b))

parsed_conflict_comm : (a b : Lock) → parsed_conflict a b ≡ parsed_conflict b a
unfolding parsed_conflict
parsed_conflict_comm a b = ground (
  arith,
  text_eq_iff a.kind b.kind,
  text_eq_comm a.kind b.kind,
  text_eq_comm a.scope b.scope,
  paths_overlap_comm a.scope b.scope,
)

-- Conflict is symmetric.
pub locks_conflict_comm :
    (left right : Text) → locks_conflict left right ≡ locks_conflict right left
unfolding locks_conflict
locks_conflict_comm left right = parsed_conflict_comm (parse_lock left) (parse_lock right)
