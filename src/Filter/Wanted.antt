-- ===== src/Filter/Wanted.antt =====
-- What `parsePIDString` (src/mpegts/Filter.cpp) makes of the PIDs that a request lists.
use satpi.Base.{
  ℕ, ◌≡◌, ◌<◌, ◌≤◌, refl, ◌∙◌, arith, Bool, true, false, ◌&&◌, ◌||◌, not, if◌then◌else◌, ◌==◌, List,
  [], ◌∷◌, ◌++◌, le→ltb,
}
use satpi.Text.{codes, contains, split, value, stoi, is_one_of}
use satpi.PidTable
use satpi.PidTable.{PidTable, is_opened}
use satpi.PidTable.Requests.{wanted, held, set_pid-wanted}
use satpi.Filter.{Filter}
use satpi.Filter.Request.{done, out_of_bounds, set_pids, request_pids, parse_pid_string}

-- Each text of the list is the number of the other list, by `std::stoi`.
pub data Numbers : List (List ℕ) → List ℕ → Type 0 where
  no_numbers : Numbers [] []
  number :
      {tokens : List (List ℕ)} {pids : List ℕ} (token : List ℕ) (p : ℕ)
      → stoi token ≡ value p
      → p < PidTable.max_pids
      → Numbers tokens pids
      → Numbers (token ∷ tokens) (p ∷ pids)

-- The PIDs of the list are wanted, and no other that was not; what the device holds is the same.
abbrev pub Adds : List ℕ → PidTable → PidTable → Type 0
Adds pids t t' =
    (j : ℕ)
    → (wanted (t'.pids j).state ≡ (is_one_of pids j || wanted (t.pids j).state))
      × (held (t'.pids j).state ≡ held (t.pids j).state)

or_request : (a b c d : Bool) → (b || (if a then true || (c && d) else c)) ≡ (a || b || c)
or_request a b c d = ground arith

or_swap : (a b c : Bool) → (b || (a || c)) ≡ (a || b || c)
or_swap a b c = ground arith

is_one_of-++ :
    (xs ys : List ℕ) (j : ℕ) → is_one_of (xs ++ ys) j ≡ (is_one_of xs j || is_one_of ys j)
is_one_of-++ [] ys j = refl
is_one_of-++ (x ∷ xs) ys j = rw (is_one_of-++ xs ys j) (ground arith)

set_pids_number :
    (any : Bool) (token : List ℕ) (tokens : List (List ℕ)) (p : ℕ) (t : PidTable)
    → stoi token ≡ value p
    → p < PidTable.max_pids
    → set_pids any true (token ∷ tokens) t ≡ set_pids any true tokens (PidTable.set_pid p true t)
unfolding set_pids
set_pids_number any token tokens p t e small = rw (e, set_pids) (ground arith)

set_pids-Adds :
    {tokens : List (List ℕ)} {pids : List ℕ} (any : Bool) (t : PidTable)
    → Numbers tokens pids
    → (t' : PidTable) × (set_pids any true tokens t ≡ done t') × Adds pids t t'
unfolding set_pids
set_pids-Adds any t no_numbers = (t, refl, λ j. (refl, refl))
set_pids-Adds any t (number {tokens} {pids} token p e small rest) =
    let (t', run, adds) = set_pids-Adds any (PidTable.set_pid p true t) rest in
    (
      t',
      set_pids_number any token tokens p t e small ∙ run,
      λ j.
          let (now_wanted, same) = set_pid-wanted p j true t in
          (
            (adds j).0
                ∙ rw now_wanted (
                    or_request (j == p) (is_one_of pids j) (wanted (t.pids j).state)
                      (not (is_opened (t.pids j).state))),
            (adds j).1 ∙ same,
          ),
    )

-- A request that adds PIDs, each a number below `MAX_PIDS` and neither "all" nor "none" among
-- them, makes those PIDs wanted, and with them the ones that each user gets; every other PID is
-- wanted if it was, and what the device holds is not touched.
pub parse_pid_string-Adds :
    {N S : Type 0} {pids users : List ℕ} (req_pids : List ℕ) (f : Filter N S)
    → contains (codes "all") req_pids ≡ false
    → contains (codes "none") req_pids ≡ false
    → Numbers (split req_pids (codes ",")) pids
    → Numbers (split f.user_pids (codes ",")) users
    → (t' : PidTable) × (parse_pid_string req_pids true f ≡ done t')
      × Adds (pids ++ users) f.pid_table t'
unfolding parse_pid_string request_pids
parse_pid_string-Adds {pids} {users} req_pids f not_all not_none requested of_users =
    let (t1, run1, adds1) = set_pids-Adds false f.pid_table requested in
    let (t2, run2, adds2) = set_pids-Adds true t1 of_users in
    (
      t2,
      rw (not_all, not_none, run1) run2,
      λ j. (
        (adds2 j).0
            ∙ rw (is_one_of-++ pids users j, (adds1 j).0)
                (or_swap (is_one_of pids j) (is_one_of users j)
                  (wanted (f.pid_table.pids j).state)),
        (adds2 j).1 ∙ (adds1 j).1,
      ),
    )

set_pids_stray :
    {before : List (List ℕ)} {pids : List ℕ} (token : List ℕ) (after : List (List ℕ)) (p : ℕ)
    (any : Bool) (t : PidTable)
    → Numbers before pids
    → stoi token ≡ value p
    → PidTable.max_pids ≤ p
    → set_pids any true (before ++ (token ∷ after)) t ≡ out_of_bounds
unfolding set_pids
set_pids_stray token after p any t no_numbers e large =
    rw (e, set_pids, le→ltb p PidTable.max_pids large) (ground arith)
set_pids_stray token after p any t (number {tokens} first q eq small rest) e large =
    set_pids_number any first (tokens ++ (token ∷ after)) q t eq small
    ∙ set_pids_stray token after p any (PidTable.set_pid q true t) rest e large

-- A request to add PIDs in which a number of `MAX_PIDS` or more follows numbers below it writes
-- out of the bounds of the table, whatever comes behind.
pub parse_pid_string_stray :
    {N S : Type 0} {before : List (List ℕ)} {pids : List ℕ} (req_pids token : List ℕ)
    (after : List (List ℕ)) (p : ℕ) (f : Filter N S)
    → contains (codes "all") req_pids ≡ false
    → contains (codes "none") req_pids ≡ false
    → split req_pids (codes ",") ≡ before ++ (token ∷ after)
    → Numbers before pids
    → stoi token ≡ value p
    → PidTable.max_pids ≤ p
    → parse_pid_string req_pids true f ≡ out_of_bounds
unfolding parse_pid_string request_pids
parse_pid_string_stray req_pids token after p f not_all not_none tokens numbers e large =
    rw (not_all, not_none, tokens, set_pids_stray token after p false f.pid_table numbers e large)
      refl
