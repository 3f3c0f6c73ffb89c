-- ===== src/Permission/Risk.antt =====
-- `_bash_high_risk` and `_has_high_risk_action` of permission_policy.py, with their tables. The tests
-- that return `True` one after the other are a disjunction. `lower` is `str.lower`, a parameter:
-- what is proved holds for every Unicode version's table.
use opencode_orchestrator.Prelude.{
  Bool, true, false, not, ◌&&◌, ◌||◌, List, [], ◌∷◌, ◌++◌, Option, none, some, any, map, is_empty,
}
use opencode_orchestrator.Text.{
  Text, codes, texts, text_eq, is_one_of, is_in, starts_with, strip, join, after_last, after_first,
}
use opencode_orchestrator.Text.Shlex.{shlex_split}

abbrev pub high_risk_fragments : List Text
high_risk_fragments = texts (
    "git push" ∷ "git reset --hard" ∷ "git rebase" ∷ "git filter-repo" ∷ "git filter-branch"
    ∷ " rm " ∷ "rm -" ∷ "sudo " ∷ "deploy" ∷ "publish" ∷ "docker push" ∷ "kubectl apply"
    ∷ "kubectl delete" ∷ "terraform apply" ∷ "terraform destroy" ∷ "gh pr create" ∷ "curl -x post"
    ∷ "curl --request post" ∷ "wget --post" ∷ "scp " ∷ "rsync " ∷ "credential" ∷ "authorization"
    ∷ "chmod " ∷ "chown " ∷ "drop table" ∷ "truncate table" ∷ [])

abbrev writers : List Text
writers = texts (
    "rm" ∷ "rmdir" ∷ "unlink" ∷ "shred" ∷ "mv" ∷ "cp" ∷ "dd" ∷ "install" ∷ "tee" ∷ "touch" ∷ "mkdir"
    ∷ "mkfifo" ∷ "truncate" ∷ "setfacl" ∷ "useradd" ∷ "usermod" ∷ [])

abbrev remote_shells : List Text
remote_shells = texts ("scp" ∷ "rsync" ∷ "ssh" ∷ "sftp" ∷ "ftp" ∷ [])

abbrev write_verbs : List Text
write_verbs = texts ("post" ∷ "put" ∷ "patch" ∷ "delete" ∷ [])

abbrev write_options : List Text
write_options = texts (
    "-d" ∷ "--data" ∷ "--data-raw" ∷ "--data-binary" ∷ "--data-urlencode" ∷ "--form"
    ∷ "--form-string" ∷ "--post-data" ∷ "--post-file" ∷ "--upload-file" ∷ [])

abbrev write_prefixes : List Text
write_prefixes = texts (
    "--data=" ∷ "--data-raw=" ∷ "--data-binary=" ∷ "--data-urlencode=" ∷ "--form="
    ∷ "--form-string=" ∷ "--upload-file=" ∷ [])

abbrev write_methods : List Text
write_methods = texts ("-xpost" ∷ "-xput" ∷ "-xpatch" ∷ "-xdelete" ∷ [])

abbrev sql_markers : List Text
sql_markers = texts (
    "drop table" ∷ "drop database" ∷ "truncate table" ∷ "delete from" ∷ "insert into" ∷ "update "
    ∷ [])

abbrev risk_markers : List Text
risk_markers = texts (
    "delete from" ∷ "drop database" ∷ "insert into" ∷ "update " ∷ "npm publish" ∷ "twine upload"
    ∷ "docker login" ∷ "security" ∷ "credential" ∷ "authorization" ∷ "password" ∷ "passwd"
    ∷ "secret" ∷ "token" ∷ "api key" ∷ "access key" ∷ "iptables" ∷ "kubectl patch" ∷ "gh api"
    ∷ "--method post" ∷ "--method put" ∷ "requests.post" ∷ "requests.put" ∷ "httpx.post"
    ∷ "urllib.request.urlopen" ∷ ".unlink(" ∷ ".remove(" ∷ ".rmdir(" ∷ "os.unlink(" ∷ "os.remove("
    ∷ "shutil.rmtree(" ∷ "pathlib.path.unlink(" ∷ [])

-- `any(token in names for token in tokens)`
unfoldable pub any_of : List Text → List Text → Bool
any_of names tokens = any (λ t. is_one_of t names) tokens

unfoldable pub starts_with_any : List Text → Text → Bool
starts_with_any prefixes s = any (λ p. starts_with p s) prefixes

unfoldable pub contains_any : List Text → Text → Bool
contains_any markers s = any (λ m. is_in m s) markers

abbrev space : Text
space = codes " "

-- curl's short options, alone or with their argument directly behind them
unfoldable pub curl_short_option : Text → Bool
curl_short_option (a ∷ b ∷ []) = is_one_of (a ∷ b ∷ []) (texts ("-d" ∷ "-F" ∷ "-T" ∷ []))
curl_short_option (a ∷ b ∷ c ∷ s) = is_one_of (a ∷ b ∷ []) (texts ("-d" ∷ "-F" ∷ "-T" ∷ []))
curl_short_option _ = false

unfoldable pub write_request : Text → Bool
write_request token =
    starts_with_any (texts ("--request=" ∷ "--method=" ∷ [])) token
    && is_one_of (after_first b'=' token) write_verbs

-- a method option with a writing verb as the next token
unfoldable pub write_request_pair : List Text → Bool
write_request_pair [] = false
write_request_pair (t ∷ []) = false
write_request_pair (t ∷ verb ∷ rest) =
    (is_one_of t (texts ("-x" ∷ "--request" ∷ "--method" ∷ [])) && is_one_of verb write_verbs)
    || write_request_pair (verb ∷ rest)

unfoldable pub http_client_risk : Text → List Text → Bool
http_client_risk name rest =
    is_one_of name (texts ("http" ∷ "httpie" ∷ "xh" ∷ [])) && any_of write_verbs rest

unfoldable pub curl_risk : Text → List Text → List Text → Bool
curl_risk name raw_rest rest =
    is_one_of name (texts ("curl" ∷ "wget" ∷ []))
    && (any
          (λ t.
            is_one_of t write_options
            || starts_with_any write_prefixes t
            || is_one_of t write_methods)
          rest
        || (text_eq name (codes "curl") && any curl_short_option raw_rest)
        || (text_eq name (codes "curl") && is_one_of (codes "-t") rest)
        || any write_request rest
        || write_request_pair rest)

-- the second and third test read all tokens, the first only those behind the command's name
unfoldable pub git_risk : Text → Text → List Text → Bool
git_risk name first rest =
    (text_eq name (codes "git") && not (is_empty rest))
    && (any_of (texts ("push" ∷ "rebase" ∷ "filter-repo" ∷ "filter-branch" ∷ "clean" ∷ [])) rest
        || (is_one_of (codes "reset") (first ∷ rest) && is_one_of (codes "--hard") (first ∷ rest))
        || (is_one_of (codes "commit") (first ∷ rest)
            && is_one_of (codes "--amend") (first ∷ rest)))

unfoldable pub deploy_risk : Text → List Text → Bool
deploy_risk name rest =
    (text_eq name (codes "aws") && any_of (texts ("cp" ∷ "sync" ∷ "put" ∷ "upload" ∷ [])) rest)
    || (is_one_of name (texts ("helm" ∷ "pulumi" ∷ "ansible-playbook" ∷ []))
        && any_of (texts ("install" ∷ "upgrade" ∷ "uninstall" ∷ "up" ∷ "apply" ∷ [])) rest)
    || (text_eq name (codes "kubectl")
        && any_of (texts ("apply" ∷ "delete" ∷ "patch" ∷ "rollout" ∷ "replace" ∷ "scale" ∷ []))
            rest)

unfoldable pub database_risk : Text → List Text → Bool
database_risk name tokens =
    is_one_of name (texts ("dropdb" ∷ "mysql" ∷ "psql" ∷ "sqlite3" ∷ []))
    && contains_any sql_markers (join space tokens)

-- `first` and `rest` are the lowered words, `raw_rest` the words as they are written.
unfoldable pub words_high_risk : Text → List Text → List Text → Bool
words_high_risk first raw_rest rest =
    let name = after_last b'/' first in
    is_one_of name writers
    || is_one_of name remote_shells
    || http_client_risk name rest
    || curl_risk name raw_rest rest
    || git_risk name first rest
    || deploy_risk name rest
    || database_risk name (first ∷ rest)
    || contains_any risk_markers (join space (first ∷ rest))

module _ (lower : Text → Text) where
  unfoldable pub tokens_high_risk : Option (List Text) → Bool
  tokens_high_risk none = true
  tokens_high_risk (some []) = true
  tokens_high_risk (some (first ∷ rest)) = words_high_risk (lower first) rest (map lower rest)

  unfoldable pub bash_high_risk : Text → Bool
  bash_high_risk command = tokens_high_risk (shlex_split command)

  -- `f" {target.strip().lower()} "`
  unfoldable pub padded : Text → Text
  padded target = b' ' ∷ (lower (strip target) ++ space)

  -- all targets, one to a line
  unfoldable pub lowered : List Text → Text
  lowered targets = join (10 ∷ []) (map padded targets)

  unfoldable pub has_high_risk_action : Text → List Text → Bool
  has_high_risk_action permission targets =
      contains_any high_risk_fragments (lowered targets)
      || (text_eq permission (codes "bash") && any bash_high_risk targets)
