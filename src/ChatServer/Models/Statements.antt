-- ===== src/ChatServer/Models/Statements.antt =====
-- The statements of the classes under ChatServer/src/server/model/.
use cpp_tiny_lab.Base.{◌++◌}
use cpp_tiny_lab.Base.Bytes.{Bytes, codes}
use cpp_tiny_lab.Base.Int.{ℤ}
use cpp_tiny_lab.Base.Numerals.{decimal_ℤ}
use cpp_tiny_lab.ChatServer.{User, Group}
use cpp_tiny_lab.ChatServer.Models.Database.{c_str}

abbrev pub user_insert_sql : User → Bytes
user_insert_sql u =
    codes "insert into User(name, password, state) values('"
    ++ (c_str u.name
        ++ (codes "', '" ++ (c_str u.password ++ (codes "', '" ++ (c_str u.state ++ codes "')")))))

abbrev pub user_query_sql : ℤ → Bytes
user_query_sql id = codes "select * from User where id = " ++ decimal_ℤ id

abbrev pub update_state_sql : User → Bytes
update_state_sql u =
    codes "update User set state = '"
    ++ (c_str u.state ++ (codes "' where id = " ++ decimal_ℤ u.id))

abbrev pub reset_state_sql : Bytes
reset_state_sql = codes "update User set state = 'offline' where state = 'online'"

abbrev pub offline_insert_sql : ℤ → Bytes → Bytes
offline_insert_sql userid msg =
    codes "insert into OfflineMessage values("
    ++ (decimal_ℤ userid ++ (codes ", '" ++ (c_str msg ++ codes "')")))

abbrev pub offline_remove_sql : ℤ → Bytes
offline_remove_sql userid = codes "delete from OfflineMessage where userid = " ++ decimal_ℤ userid

abbrev pub offline_query_sql : ℤ → Bytes
offline_query_sql userid =
    codes "select message from OfflineMessage where userid = " ++ decimal_ℤ userid

abbrev pub friend_insert_sql : ℤ → ℤ → Bytes
friend_insert_sql userid friendid =
    codes "insert into Friend values("
    ++ (decimal_ℤ userid ++ (codes ", " ++ (decimal_ℤ friendid ++ codes ")")))

-- A literal that goes on in the next line holds the spaces in front of that line.
abbrev pub friend_query_sql : ℤ → Bytes
friend_query_sql userid =
    codes "select User.id, User.name, User.state             from User, Friend             "
    ++ (codes "where User.id = Friend.friendid and Friend.userid = " ++ decimal_ℤ userid)

abbrev pub create_group_sql : Group → Bytes
create_group_sql g =
    codes "insert into AllGroup(groupname, groupdesc) values('"
    ++ (c_str g.name ++ (codes "', '" ++ (c_str g.desc ++ codes "')")))

abbrev pub add_group_sql : ℤ → ℤ → Bytes → Bytes
add_group_sql userid groupid role =
    codes "insert into GroupUser values("
    ++ (decimal_ℤ groupid
        ++ (codes ", " ++ (decimal_ℤ userid ++ (codes ", '" ++ (c_str role ++ codes "')")))))

abbrev pub query_groups_sql : ℤ → Bytes
query_groups_sql userid =
    codes "select AllGroup.*             from GroupUser, AllGroup             "
    ++ (codes "where GroupUser.groupid = AllGroup.id and GroupUser.userid = " ++ decimal_ℤ userid)

abbrev pub group_users_sql : ℤ → Bytes
group_users_sql groupid =
    codes "select User.id, User.name, User.state, GroupUser.grouprole                 "
    ++ (codes "from User, GroupUser                 where User.id = GroupUser.userid and "
        ++ (codes "GroupUser.groupid = " ++ decimal_ℤ groupid))

abbrev pub query_gropu_users_sql : ℤ → ℤ → Bytes
query_gropu_users_sql userid groupid =
    codes "select userid from GroupUser where userid != "
    ++ (decimal_ℤ userid ++ (codes " and groupid = " ++ decimal_ℤ groupid))
