-- ===== src/Group/ElectionTests.antt =====
-- The theorem on two services over one table at a concrete run.
use freno.Prelude.{ℕ, ◌≡◌, refl, true, false, some, [], ◌==◌, if◌then◌else◌, arith}
use freno.Go.Text.{Text, codes, str_eq, text_eq}
use freno.Go.Dict.{lookup, insert}
use freno.Group.Election.{Backend, contend, attempt_leadership, read_leadership, read_election}
use freno.Group.Election.System.{
  System, new_member, attempt, read, read_member, renewal, Reached, begin, stepped, passes,
  attempts, reads,
}
use freno.Group.Election.System.Exclusion.{leaders_exclusive}

abbrev as_is : Text → Text
as_is s = s

abbrev backends : ℕ → Backend
backends i = record {
  domain = codes "dc:prod";
  share_domain = [];
  service_id = if i == 0 then codes "one:9777" else codes "two:9777";
  leader_state = false;
  health_state = false;
}

abbrev at_first : System
at_first = record { now = 100; table = []; members = λ i. new_member (backends i) }

-- The first service becomes the leader, and the second one tries three seconds later.
abbrev led : System
led = read as_is true 0 (attempt as_is true 0 at_first)

abbrev later : System
later = record led { now = 103 }

abbrev tried : System
tried = read as_is true 1 (attempt as_is true 1 later)

tried-Reached : Reached as_is tried
unfolding attempt read read_member
tried-Reached =
    stepped
      (stepped
        (stepped
          (stepped (stepped (begin 100 [] backends) (attempts 0 true at_first refl))
            (reads 0 true (some 100) (attempt as_is true 0 at_first) refl))
          (passes 103 led (omega arith)))
        (attempts 1 true later refl))
      (reads 1 true (some 103) (attempt as_is true 1 later) refl)

leaders_exclusive_example : (tried.members 1).backend.leader_state ≡ false
unfolding attempt read read_member read_election read_leadership attempt_leadership contend renewal
    str_eq lookup insert
leaders_exclusive_example =
    leaders_exclusive as_is 0 1 tried-Reached refl refl refl (omega arith) (omega arith)
