-- ===== src/Rule/Processes.antt =====
-- `Process.Match` (rule/process.go) asks for a process once, and then reads its cache.
use rule_base_proxy.Common.{
  Option-cases, Text, [], arith, false, inl, inr, refl, some, subst, sym, text_eq, to_lower, ◌+◌,
  ◌<◌, ◌∙◌, ◌∷◌, ◌≡◌, ◌≢◌,
}
use rule_base_proxy.LruCache.Cache.{get, set}
use rule_base_proxy.LruCache.Settings.{get-SameSettings}
use rule_base_proxy.LruCache.Valid.{IsValid, get-IsValid}
use rule_base_proxy.LruCache.Reads.{get-set}
use rule_base_proxy.LruCache.Repeats.{get-get}
use rule_base_proxy.Rule.Metadata.{Metadata}
use rule_base_proxy.Rule.Strings.{equal_fold}
use rule_base_proxy.Rule.Matching.{World, State, match_process, process_key, found_process, text_Eq}

-- The process cache as the program makes it, whatever it holds, while its clock is read twice in
-- less than its age.
pub record IsReady (s : State) : Type 0 where
  pub valid : IsValid s.processes
  pub fixed : s.processes.update_age_on_get ≡ false
  pub age : s.processes.max_age ≡ 2
  pub soon : s.later < s.now + 2

-- An empty name, which stands for an unknown process, is the name of no rule's process.
empty_lem : (p : Text) → p ≢ [] → equal_fold [] p ≡ false
unfolding equal_fold to_lower text_eq
empty_lem [] h = absurd (h refl)
empty_lem (c ∷ p) h = refl

-- What a miss stores can be read.
get-set-get :
    (s : State) (key name : Text)
    → IsReady s
    → (get s.now s.now (set s.now s.later (get s.now s.now s.processes key).0 key name) key).1
      ≡ some name
get-set-get s key name r =
    let same = get-SameSettings s.now s.now s.processes key in
    get-set s.now s.later s.now s.now (get s.now s.now s.processes key).0 key name
      (get-IsValid s.now s.now s.processes key r.valid)
      (λ h. (ground (arith, same.age, r.age, r.soon), ground (arith, same.age, r.age)))

-- After a match, the cache has a name for the connection, and it decides the match.
cached_lem :
    (w : World) (p : Text) (s : State) (m : Metadata)
    → p ≢ []
    → IsReady s
    → (name : Text) × ((get s.now s.now (match_process w p s m).0.processes (process_key m)).1
        ≡ some name)
      × ((match_process w p s m).1 ≡ equal_fold name p)
      × ((match_process w p s m).0.now ≡ s.now)
unfolding match_process
cached_lem w p s m ne r = elim (Option-cases (get s.now s.now s.processes (process_key m)).1) [
  | inr (name, hit) ↦
      let again = get-get s.now s.now s.now s.processes (process_key m) r.valid r.fixed hit in
      (name, ground arith, ground arith, ground arith)
  | inl miss ↦ elim (Option-cases (found_process w m)) [
    | inl none_such ↦
        let again = get-set-get s (process_key m) [] r in
        ([], ground arith, ground (arith, empty_lem p ne), ground arith)
    | inr (name, found) ↦
        let again = get-set-get s (process_key m) name r in
        (name, ground arith, ground arith, ground arith)
  ]
]

-- A hit decides a match.
match_process_hit :
    (w : World) (p : Text) (s : State) (m : Metadata) {name : Text}
    → (get s.now s.now s.processes (process_key m)).1 ≡ some name
    → (match_process w p s m).1 ≡ equal_fold name p
unfolding match_process
match_process_hit w p s m hit = ground arith

-- A second match of a `PROCESS-NAME` rule on the same connection in the same second gives the
-- same answer, whatever the search for the process would find by then: it is read from the cache.
-- The rule's name is not empty, and the cache has the settings of the program.
pub match_process-again :
    (w w' : World) (p : Text) (s : State) (m : Metadata)
    → p ≢ []
    → IsReady s
    → (match_process w' p (match_process w p s m).0 m).1 ≡ (match_process w p s m).1
match_process-again w w' p s m ne r =
    let (name, read, answer, time) = cached_lem w p s m ne r in
    let hit =
      subst (λ t. (get t t (match_process w p s m).0.processes (process_key m)).1 ≡ some name)
        (sym time) read in
    match_process_hit w' p (match_process w p s m).0 m hit ∙ sym answer
