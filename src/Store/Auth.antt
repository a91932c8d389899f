-- ===== src/Store/Auth.antt =====
-- internal/store/git.go: remoteAuth and sshRemoteAuth, the credentials of the push remote.
use jconfig.Prelude.{
  Bool, not, ◌&&◌, ◌||◌, List, [], ◌∷◌, ◌++◌, Option, none, some, ◌==◌, nat_equality, list_equality,
  if◌then◌else◌,
}
use jconfig.Prelude.Answer.{Answer, good, bad}
use jconfig.Strings.Format.{explain, quoted}
use jconfig.Strings.Basic.{Text, codes}
use jconfig.Config.Types.{Push}
use jconfig.Config.Host.{Host}
use jconfig.Config.Key.{decode_key}
use jconfig.Store.Git.{
  HostKeyCheck, default_check, ignore_host_key, known_hosts_file, Auth, no_auth, basic_auth,
  key_auth, key_file_auth, Endpoint, Transports,
}

unfoldable pub first_non_empty : List Text → Text
first_non_empty [] = []
first_non_empty (v ∷ vals) = if v == [] then first_non_empty vals else v

abbrev pub failed_unless : Text → Option Text → Auth → Answer Auth
failed_unless what none auth = good auth
failed_unless what (some e) auth = bad (explain what e)

abbrev pub ssh_url_text : Push → Text
ssh_url_text p =
    codes "push url "
    ++ (quoted p.url ++ codes " is an SSH remote: set repo.push.key or repo.push.key_file")

-- Whether a url's scheme is served over HTTP.
abbrev pub is_http : Text → Bool
is_http protocol = protocol == codes "http" || protocol == codes "https"

module _ (host : Host) (lib : Transports) where
  -- The end of sshRemoteAuth: the host key's check joins keys that were read.
  abbrev pub with_known_hosts : Push → (HostKeyCheck → Auth) → Answer Auth
  with_known_hosts p auth =
      if p.insecure_ignore_host_key
      then good (auth ignore_host_key)
      else if p.known_hosts == []
      then good (auth default_check)
      else failed_unless (codes "push known_hosts " ++ p.known_hosts)
          (lib.new_known_hosts_callback p.known_hosts) (auth (known_hosts_file p.known_hosts))

  abbrev pub with_keys : Push → Text → Option Text → (HostKeyCheck → Auth) → Answer Auth
  with_keys p what (some e) auth = bad (explain what e)
  with_keys p what none auth = with_known_hosts p auth

  abbrev pub inline_key : Push → Text → Answer Text → Answer Auth
  inline_key p user (bad e) = bad (explain (codes "push key") e)
  inline_key p user (good pem) =
      with_keys p (codes "push key") (lib.new_public_keys user pem p.key_passphrase)
        (key_auth user pem p.key_passphrase)

  -- sshRemoteAuth
  unfoldable pub ssh_remote_auth : Push → Text → Answer Auth
  unfolding first_non_empty decode_key
  ssh_remote_auth p url_user =
      let user = first_non_empty (p.username ∷ url_user ∷ codes "git" ∷ []) in
      if not (p.key == [])
      then inline_key p user (decode_key host p.key)
      else if not (p.key_file == [])
      then with_keys p (codes "push key_file " ++ p.key_file)
          (lib.new_public_keys_from_file user p.key_file p.key_passphrase)
          (key_file_auth user p.key_file p.key_passphrase)
      else bad (ssh_url_text p)

  abbrev pub http_auth : Push → Auth
  http_auth p =
      if p.username == [] && p.password == []
      then no_auth
      else basic_auth (if p.username == [] then codes "git" else p.username) p.password

  abbrev pub endpoint_auth : Push → Answer Endpoint → Answer Auth
  endpoint_auth p (bad e) = bad (codes "push url " ++ (quoted p.url ++ (codes ": " ++ e)))
  endpoint_auth p (good ep) =
      if ep.protocol == codes "file"
      then good no_auth
      else if is_http ep.protocol
      then good (http_auth p)
      else if ep.protocol == codes "ssh"
      then ssh_remote_auth p ep.user
      else bad (
          codes "push url "
          ++ (quoted p.url ++ (codes ": unsupported protocol " ++ quoted ep.protocol)))

  -- remoteAuth
  unfoldable pub remote_auth : Push → Answer Auth
  unfolding ssh_remote_auth
  remote_auth p = endpoint_auth p (lib.new_endpoint p.url)
